-- ===== src/Search/Data/AllAToC.antt =====
-- The entries of docs/docs/search/all_*.js.
use hex_fiend.Prelude.{List, [], ◌∷◌}
use hex_fiend.Search.Results.{Entry}
use hex_fiend.Search.Data.{entry, target}

-- `searchData` of all_a.js
abbrev pub all_a : List Entry
all_a =
    (entry "khfattributediffinsertion" "kHFAttributeDiffInsertion" (
      target "../_h_f_byte_range_attribute_8h.html#a6962444359db83ace628924a87f815de"
        "HFByteRangeAttribute.h"
      ∷ []))
    ∷ (entry "khfattributeexecutable" "kHFAttributeExecutable" (
        target "../_h_f_byte_range_attribute_8h.html#a3127f7a788f8095f07798161ddf21b40"
          "HFByteRangeAttribute.h"
        ∷ []))
    ∷ (entry "khfattributefocused" "kHFAttributeFocused" (
        target "../_h_f_byte_range_attribute_8h.html#ab392a565d9068ec7b3154fe7fc3fc8cc"
          "HFByteRangeAttribute.h"
        ∷ []))
    ∷ (entry "khfattributemagic" "kHFAttributeMagic" (
        target "../_h_f_byte_range_attribute_8h.html#a667b00e8924e3ce4dd3adb95e4c9defc"
          "HFByteRangeAttribute.h"
        ∷ []))
    ∷ (entry "khfattributeshared" "kHFAttributeShared" (
        target "../_h_f_byte_range_attribute_8h.html#a71a922aef702b8b01029b8e083fc5113"
          "HFByteRangeAttribute.h"
        ∷ []))
    ∷ (entry "khfattributeunmapped" "kHFAttributeUnmapped" (
        target "../_h_f_byte_range_attribute_8h.html#afc12bdcc4360a21dabe75f98fcfdeb9b"
          "HFByteRangeAttribute.h"
        ∷ []))
    ∷ (entry "khfattributeunreadable" "kHFAttributeUnreadable" (
        target "../_h_f_byte_range_attribute_8h.html#a8b4d475e0e112a70d206bad0bae64d53"
          "HFByteRangeAttribute.h"
        ∷ []))
    ∷ (entry "khfattributewritable" "kHFAttributeWritable" (
        target "../_h_f_byte_range_attribute_8h.html#a5e2d0f27304f3371c0736561a5ef6192"
          "HFByteRangeAttribute.h"
        ∷ []))
    ∷ []

-- `searchData` of all_b.js
abbrev pub all_b : List Entry
all_b =
    (entry "layoutposition" "layoutPosition" (
      target "../interface_h_f_representer.html#a05cf33df8751ca00d2b08ac2cbe62067" "HFRepresenter"
      ∷ []))
    ∷ (entry "layoutrepresenter" "layoutRepresenter" (
        target "../interface_h_f_text_view.html#a1844eea104774e5f1840b7d663345b58" "HFTextView"
        ∷ []))
    ∷ (entry "length" "length" (
        target "../struct_h_f_range.html#a1dfb683d8744159ea0bec126c63e7834" "HFRange::length()"
        ∷ target "../struct_h_f_f_p_range.html#a9a6d0fb5a10dc4c7a1ebf23edbd319ca"
            "HFFPRange::length()"
        ∷ target "../interface_h_f_byte_array.html#ada079f9ec02547a52439f03d03c22491"
            "HFByteArray::length()"
        ∷ target "../interface_h_f_byte_slice.html#a145b439ab365eba8387f6f39c9558ad6"
            "HFByteSlice::length()"
        ∷ target "../interface_h_f_file_reference.html#ad3e560b662a0fa7437d6d4c3e3f58c86"
            "HFFileReference::length()"
        ∷ []))
    ∷ (entry "lineheight" "lineHeight" (
        target "../interface_h_f_line_counting_view.html#abb9c87c891219af75203ce4c327c23a2"
          "HFLineCountingView::lineHeight()"
        ∷ target "../interface_h_f_controller.html#a75054d2f63731ef1a7929a2ea3b085d9"
            "HFController::lineHeight()"
        ∷ []))
    ∷ (entry "linenumberformat" "lineNumberFormat" (
        target "../interface_h_f_line_counting_representer.html#a67a5ca9652246b4e0fbad8aaf6398751"
          "HFLineCountingRepresenter::lineNumberFormat()"
        ∷ target "../interface_h_f_line_counting_view.html#ab3ba766f8daafe3199b17cb2dea5ae7d"
            "HFLineCountingView::lineNumberFormat()"
        ∷ []))
    ∷ (entry "linerangetodraw" "lineRangeToDraw" (
        target "../interface_h_f_line_counting_view.html#a5230ff16a480254b84ce364d9396909f"
          "HFLineCountingView"
        ∷ []))
    ∷ (entry "location" "location" (
        target "../struct_h_f_range.html#a25e5310bf57bd4d2017a9053f56a80a9" "HFRange::location()"
        ∷ target "../struct_h_f_f_p_range.html#a360b1d98fefa0e171e8e29604466fd78"
            "HFFPRange::location()"
        ∷ []))
    ∷ (entry "locationofcharacteratbyteindex_3a" "locationOfCharacterAtByteIndex:" (
        target "../interface_h_f_text_representer.html#ac3d4e16d294fb3757583c25272062991"
          "HFTextRepresenter"
        ∷ []))
    ∷ []

-- `searchData` of all_c.js
abbrev pub all_c : List Entry
all_c =
    (entry "maximizesbytesperline" "maximizesBytesPerLine" (
      target "../interface_h_f_layout_representer.html#a88bae352e0a85af02dfef594b2c75bb9"
        "HFLayoutRepresenter"
      ∷ []))
    ∷ (entry "maximizevisibilityofcontentsrange_3a" "maximizeVisibilityOfContentsRange:" (
        target "../interface_h_f_controller.html#a56a018dd37edf85c0827b1ddb8033c1e" "HFController"
        ∷ []))
    ∷ (entry "maximumavailablelinesforviewheight_3a" "maximumAvailableLinesForViewHeight:" (
        target "../interface_h_f_representer.html#a2b6f9c8eda1d96dcc31bb850fb9048fd" "HFRepresenter"
        ∷ []))
    ∷ (entry "maximumbytesperlineforlayoutinproposedwidth_3a"
        "maximumBytesPerLineForLayoutInProposedWidth:"
        (target "../interface_h_f_layout_representer.html#a7a73dfcea5490b43e0939d53f283328f"
            "HFLayoutRepresenter"
          ∷ []))
    ∷ (entry "maximumbytesperlineforviewwidth_3a" "maximumBytesPerLineForViewWidth:" (
        target "../interface_h_f_representer.html#a7b93407c240a3f821f810d1f33faf0ac" "HFRepresenter"
        ∷ []))
    ∷ (entry "maximumselectionlocation" "maximumSelectionLocation" (
        target "../interface_h_f_controller.html#a49bbc9b470ded0129647c4f8e43f3238" "HFController"
        ∷ []))
    ∷ (entry "maxprogress" "maxProgress" (
        target "../interface_h_f_progress_tracker.html#acf443cae934971a56fbf2934f6a3eee2"
          "HFProgressTracker"
        ∷ []))
    ∷ (entry "minimumdigitcount" "minimumDigitCount" (
        target "../interface_h_f_line_counting_representer.html#a917c1d5435fd0208bbfd09c9fba10eec"
          "HFLineCountingRepresenter"
        ∷ []))
    ∷ (entry "minimumselectionlocation" "minimumSelectionLocation" (
        target "../interface_h_f_controller.html#a93786a0f5d77922ebd0ff33ec86cf619" "HFController"
        ∷ []))
    ∷ (entry "minimumviewwidthforbytesperline_3a" "minimumViewWidthForBytesPerLine:" (
        target "../interface_h_f_layout_representer.html#ab3434437784555fdbe449665334e5f2b"
          "HFLayoutRepresenter::minimumViewWidthForBytesPerLine:()"
        ∷ target "../interface_h_f_representer.html#acf56b3dfdb9c607c6871d2ef9abe5a91"
            "HFRepresenter::minimumViewWidthForBytesPerLine:()"
        ∷ []))
    ∷ (entry "minimumviewwidthforlayoutinproposedwidth_3a"
        "minimumViewWidthForLayoutInProposedWidth:"
        (target "../interface_h_f_layout_representer.html#abe8b9fb073e8431e28d803ad74497253"
            "HFLayoutRepresenter"
          ∷ []))
    ∷ (entry "model" "Model" (target "../group__model.html" "" ∷ []))
    ∷ (entry "moveindirection_3abybytecount_3awithselectiontransformation_3ausinganchor_3a"
        "moveInDirection:byByteCount:withSelectionTransformation:usingAnchor:"
        (target "../interface_h_f_controller.html#a748da633f56f9862fe4d3a5d5a667364" "HFController"
          ∷ []))
    ∷ (entry "moveindirection_3awithgranularity_3aandmodifyselection_3a"
        "moveInDirection:withGranularity:andModifySelection:"
        (target "../interface_h_f_controller.html#af33f09cabf1b0bd4862186fcc97fc4e8" "HFController"
          ∷ []))
    ∷ (entry "movetolineboundaryindirection_3aandmodifyselection_3a"
        "moveToLineBoundaryInDirection:andModifySelection:"
        (target "../interface_h_f_controller.html#a0b9b93cb1a643e75206bcb6d9197fe55" "HFController"
          ∷ []))
    ∷ []
