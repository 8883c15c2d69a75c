-- ===== src/Search/Data/Variables.antt =====
-- The entries of docs/docs/search/variables_*.js.
use hex_fiend.Prelude.{List, [], ◌∷◌}
use hex_fiend.Search.Results.{Entry}
use hex_fiend.Search.Data.{entry, target}

-- `searchData` of variables_0.js
abbrev pub variables_0 : List Entry
variables_0 =
    (entry "_5fhfflags" "_hfflags" (
      target "../interface_h_f_controller.html#a1875b07981f69ff10d2a9d0f80a8692b" "HFController"
      ∷ []))
    ∷ []

-- `searchData` of variables_1.js
abbrev pub variables_1 : List Entry
variables_1 =
    (entry "dst" "dst" (
      target "../struct_h_f_edit_instruction__t.html#a09a85582cb7b56c837d84b7ef8a7fbec"
        "HFEditInstruction_t"
      ∷ []))
    ∷ []

-- `searchData` of variables_2.js
abbrev pub variables_2 : List Entry
variables_2 =
    (entry "hfchangeinfilebytearraykey" "HFChangeInFileByteArrayKey"
      (target "../_h_f_controller_8h.html#adb81445227b9084594a08a8e05f27504" "HFController.h" ∷ []))
    ∷ (entry "hfchangeinfilehintkey" "HFChangeInFileHintKey" (
        target "../_h_f_controller_8h.html#a07dd60fa4f880542cffba01cce405f3e" "HFController.h"
        ∷ []))
    ∷ (entry "hfchangeinfilemodifiedrangeskey" "HFChangeInFileModifiedRangesKey" (
        target "../_h_f_controller_8h.html#a6dcb2a4fd18fa9f5a22fedfde43787a8" "HFController.h"
        ∷ []))
    ∷ (entry "hfchangeinfileshouldcancelkey" "HFChangeInFileShouldCancelKey" (
        target "../_h_f_controller_8h.html#ab5507b93db185e2608ddc1a06f359d30" "HFController.h"
        ∷ []))
    ∷ (entry "hfcontrollerchangedpropertieskey" "HFControllerChangedPropertiesKey" (
        target "../_h_f_controller_8h.html#a8cd50e8b1391a840afaddd61bd8ccc3a" "HFController.h"
        ∷ []))
    ∷ (entry "hfcontrollerdidchangepropertiesnotification"
        "HFControllerDidChangePropertiesNotification"
        (target "../_h_f_controller_8h.html#ab8e0fdcc4ac0756fc6afbf90051b0693" "HFController.h"
          ∷ []))
    ∷ (entry "hflinecountingrepresenterminimumviewwidthchanged"
        "HFLineCountingRepresenterMinimumViewWidthChanged"
        (target "../_h_f_line_counting_representer_8h.html#af93e2e1eedb73ea1f923b3db0cb7f193"
            "HFLineCountingRepresenter.h"
          ∷ []))
    ∷ (entry "hfprepareforchangeinfilenotification" "HFPrepareForChangeInFileNotification" (
        target "../_h_f_controller_8h.html#ad9e43b0e840921ce3faae4eba1de5168" "HFController.h"
        ∷ []))
    ∷ []

-- `searchData` of variables_3.js
abbrev pub variables_3 : List Entry
variables_3 =
    (entry "khfattributediffinsertion" "kHFAttributeDiffInsertion" (
      target "../_h_f_byte_range_attribute_8h.html#a6962444359db83ace628924a87f815de"
        "HFByteRangeAttribute.h"
      ∷ []))
    ∷ (entry "khfattributeexecutable" "kHFAttributeExecutable" (
        target "../_h_f_byte_range_attribute_8h.html#a3127f7a788f8095f07798161ddf21b40"
          "HFByteRangeAttribute.h"
        ∷ []))
    ∷ (entry "khfattributefocused" "kHFAttributeFocused" (
        target "../_h_f_byte_range_attribute_8h.html#ab392a565d9068ec7b3154fe7fc3fc8cc"
          "HFByteRangeAttribute.h"
        ∷ []))
    ∷ (entry "khfattributemagic" "kHFAttributeMagic" (
        target "../_h_f_byte_range_attribute_8h.html#a667b00e8924e3ce4dd3adb95e4c9defc"
          "HFByteRangeAttribute.h"
        ∷ []))
    ∷ (entry "khfattributeshared" "kHFAttributeShared" (
        target "../_h_f_byte_range_attribute_8h.html#a71a922aef702b8b01029b8e083fc5113"
          "HFByteRangeAttribute.h"
        ∷ []))
    ∷ (entry "khfattributeunmapped" "kHFAttributeUnmapped" (
        target "../_h_f_byte_range_attribute_8h.html#afc12bdcc4360a21dabe75f98fcfdeb9b"
          "HFByteRangeAttribute.h"
        ∷ []))
    ∷ (entry "khfattributeunreadable" "kHFAttributeUnreadable" (
        target "../_h_f_byte_range_attribute_8h.html#a8b4d475e0e112a70d206bad0bae64d53"
          "HFByteRangeAttribute.h"
        ∷ []))
    ∷ (entry "khfattributewritable" "kHFAttributeWritable" (
        target "../_h_f_byte_range_attribute_8h.html#a5e2d0f27304f3371c0736561a5ef6192"
          "HFByteRangeAttribute.h"
        ∷ []))
    ∷ []

-- `searchData` of variables_4.js
abbrev pub variables_4 : List Entry
variables_4 =
    (entry "length" "length" (
      target "../struct_h_f_range.html#a1dfb683d8744159ea0bec126c63e7834" "HFRange::length()"
      ∷ target "../struct_h_f_f_p_range.html#a9a6d0fb5a10dc4c7a1ebf23edbd319ca"
          "HFFPRange::length()"
      ∷ []))
    ∷ (entry "location" "location" (
        target "../struct_h_f_range.html#a25e5310bf57bd4d2017a9053f56a80a9" "HFRange::location()"
        ∷ target "../struct_h_f_f_p_range.html#a360b1d98fefa0e171e8e29604466fd78"
            "HFFPRange::location()"
        ∷ []))
    ∷ []

-- `searchData` of variables_5.js
abbrev pub variables_5 : List Entry
variables_5 =
    (entry "src" "src" (
      target "../struct_h_f_edit_instruction__t.html#ae743ce1e89e17c0c44bbac29b4d7a5f2"
        "HFEditInstruction_t"
      ∷ []))
    ∷ []
