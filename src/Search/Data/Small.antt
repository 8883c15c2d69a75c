-- ===== src/Search/Data/Small.antt =====
-- The entries of docs/docs/search/all, defines, enums, functions, groups, pages, properties, typedefs_*.js.
use hex_fiend.Prelude.{List, [], ◌∷◌}
use hex_fiend.Search.Results.{Entry}
use hex_fiend.Search.Data.{entry, target}

-- `searchData` of all_5.js
abbrev pub all_5 : List Entry
all_5 =
    (entry "editable" "editable" (
      target "../interface_h_f_controller.html#a0ccaf58ac06e6510b2f40fc1f07c5211"
        "HFController::editable()"
      ∷ target "../interface_h_f_text_field.html#a0e3ed11ff50eb483b680bf2a546d4fb7"
          "HFTextField::editable()"
      ∷ []))
    ∷ (entry "editmode" "editMode" (
        target "../interface_h_f_controller.html#ace0cc93e891e8b31c4320040702a6f0f" "HFController"
        ∷ []))
    ∷ (entry "encoding" "encoding" (
        target
          "../interface_h_f_string_encoding_text_representer.html#ab0dcff2820771cd6ab1b6d5d99ae8cc4"
          "HFStringEncodingTextRepresenter"
        ∷ []))
    ∷ (entry "endpropertychangetransaction_3a" "endPropertyChangeTransaction:" (
        target "../interface_h_f_controller.html#abd125ad02e37fdfe9717009802299521" "HFController"
        ∷ []))
    ∷ (entry "endselectionwithevent_3aforbyteindex_3a" "endSelectionWithEvent:forByteIndex:" (
        target "../interface_h_f_controller.html#a6056a241ed5578f3158f2057a6e0c154" "HFController"
        ∷ []))
    ∷ (entry "endtrackingprogress" "endTrackingProgress" (
        target "../interface_h_f_progress_tracker.html#ae94239c895ee93b2bf4e680def6d3eb4"
          "HFProgressTracker"
        ∷ []))
    ∷ []

-- `searchData` of all_6.js
abbrev pub all_6 : List Entry
all_6 =
    (entry "font" "font" (
      target "../interface_h_f_controller.html#ac564096554a861c9f44367124db70b4b"
        "HFController::font()"
      ∷ target "../interface_h_f_line_counting_view.html#a6af132ef7eb7177c529a54bd4073f12b"
          "HFLineCountingView::font()"
      ∷ []))
    ∷ (entry "furthestrectonedge_3aforbyterange_3a" "furthestRectOnEdge:forByteRange:" (
        target "../interface_h_f_text_representer.html#a3f12926813c569493d899818bda41842"
          "HFTextRepresenter"
        ∷ []))
    ∷ []

-- `searchData` of all_7.js
abbrev pub all_7 : List Entry
all_7 =
    (entry "getranges_3afromarray_3a" "getRanges:fromArray:" (
      target "../interface_h_f_range_wrapper.html#ab9bbc5804b1340096cd4e74eddc19e2e"
        "HFRangeWrapper"
      ∷ []))
    ∷ []

-- `searchData` of all_15.js
abbrev pub all_15 : List Entry
all_15 =
    (entry "withrange_3a" "withRange:" (
      target "../interface_h_f_range_wrapper.html#a3d11996b3274aeda30b89386123bf58e"
        "HFRangeWrapper::withRange:()"
      ∷ target "../interface_h_f_range_set.html#a36589887afbbd25a3a162cadb4ade23a"
          "HFRangeSet::withRange:()"
      ∷ []))
    ∷ (entry "withranges_3acount_3a" "withRanges:count:" (
        target "../interface_h_f_range_wrapper.html#a4c0de04b0544c969939664d00960a5e9"
          "HFRangeWrapper::withRanges:count:()"
        ∷ target "../interface_h_f_range_set.html#af6f071120fe00346c0bd1c7c3a987ea5"
            "HFRangeSet::withRanges:count:()"
        ∷ []))
    ∷ (entry "withrangeset_3a" "withRangeSet:" (
        target "../interface_h_f_range_set.html#a0956124f9f9fa87cb58a8f25daea33db" "HFRangeSet"
        ∷ []))
    ∷ (entry "withrangewrappers_3a" "withRangeWrappers:" (
        target "../interface_h_f_range_set.html#ac03e56aa0ced91a4d85ff1eabcbf40c5" "HFRangeSet"
        ∷ []))
    ∷ (entry "writebytes_3alength_3ato_3a" "writeBytes:length:to:" (
        target "../interface_h_f_file_reference.html#ab337821f71ce9780c61d38593ecec358"
          "HFFileReference"
        ∷ []))
    ∷ (entry "writetofile_3atrackingprogress_3aerror_3a" "writeToFile:trackingProgress:error:" (
        target
          "../category_h_f_byte_array_07_h_f_file_writing_08.html#a9be82f7cd32f941cc94d1843ad9ad5e8"
          "HFByteArray(HFFileWriting)::writeToFile:trackingProgress:error:()"
        ∷ target "../interface_h_f_byte_array.html#a9be82f7cd32f941cc94d1843ad9ad5e8"
            "HFByteArray::writeToFile:trackingProgress:error:()"
        ∷ []))
    ∷ []

-- `searchData` of functions_7.js
abbrev pub functions_7 : List Entry
functions_7 =
    (entry "hextextview_3adidchangeproperties_3a" "hexTextView:didChangeProperties:" (
      target "../protocol_h_f_text_view_delegate_01-p.html#a4e5b12ec232d718dc91b703623732cb5"
        "HFTextViewDelegate -p"
      ∷ []))
    ∷ (entry "hfbookmarkattributefrombookmark" "HFBookmarkAttributeFromBookmark" (
        target "../_h_f_byte_range_attribute_8h.html#a79f7140206660d88dcdcb64939b5362a"
          "HFByteRangeAttribute.h"
        ∷ []))
    ∷ (entry "hfbookmarkfrombookmarkattribute" "HFBookmarkFromBookmarkAttribute" (
        target "../_h_f_byte_range_attribute_8h.html#ad6571422e49054f418be984eb2eee1b4"
          "HFByteRangeAttribute.h"
        ∷ []))
    ∷ (entry "hfdescribebytecount" "HFDescribeByteCount"
        (target "../_h_f_functions_8h.html#a559dddb38ff414cfacf5021529f3c18c" "HFFunctions.h" ∷ []))
    ∷ (entry "hfdrawshadow" "HFDrawShadow"
        (target "../_h_f_functions_8h.html#aa1e2340e72af073b5120505b4b0a291b" "HFFunctions.h" ∷ []))
    ∷ (entry "hfrange" "HFRange" (
        target "../interface_h_f_range_wrapper.html#a2c0169bf7e032062da362aa382a29c77"
          "HFRangeWrapper"
        ∷ []))
    ∷ (entry "hfregisterviewforwindowappearancechanges" "HFRegisterViewForWindowAppearanceChanges"
        (target "../_h_f_functions_8h.html#aab18db79475cdbd6490f33a970a64d71" "HFFunctions.h" ∷ []))
    ∷ (entry "hfstarttiming" "HFStartTiming"
        (target "../_h_f_functions_8h.html#a3bc1e8785697a055602a93858f081758" "HFFunctions.h" ∷ []))
    ∷ (entry "hfstoptiming" "HFStopTiming"
        (target "../_h_f_functions_8h.html#a92ef6ce654b87c024d9818c3eb32b310" "HFFunctions.h" ∷ []))
    ∷ (entry "hfstringencodingcharacterlength" "HFStringEncodingCharacterLength"
        (target "../_h_f_functions_8h.html#af701c91f3cf2fe151c68e239a40a79a5" "HFFunctions.h" ∷ []))
    ∷ (entry "hfstringencodingissupersetofascii" "HFStringEncodingIsSupersetOfASCII"
        (target "../_h_f_functions_8h.html#a925eaf1edd5e195cc196cc300c13276c" "HFFunctions.h" ∷ []))
    ∷ (entry "hfunregisterviewforwindowappearancechanges"
        "HFUnregisterViewForWindowAppearanceChanges"
        (target "../_h_f_functions_8h.html#ac1a3bb72a6760c6488bd9223be25d789" "HFFunctions.h" ∷ []))
    ∷ []

-- `searchData` of functions_11.js
abbrev pub functions_11 : List Entry
functions_11 =
    (entry "verifyintegrity" "verifyIntegrity" (
      target "../interface_h_f_index_set.html#a60b3c2ff6ccbdbd53aa3474b0a2fa6c0" "HFIndexSet" ∷ []))
    ∷ (entry "view" "view" (
        target "../interface_h_f_representer.html#a9738e9e916b36b17e37b178234ee79fe" "HFRepresenter"
        ∷ []))
    ∷ []

-- `searchData` of functions_12.js
abbrev pub functions_12 : List Entry
functions_12 =
    (entry "withrange_3a" "withRange:" (
      target "../interface_h_f_range_wrapper.html#a3d11996b3274aeda30b89386123bf58e"
        "HFRangeWrapper::withRange:()"
      ∷ target "../interface_h_f_range_set.html#a36589887afbbd25a3a162cadb4ade23a"
          "HFRangeSet::withRange:()"
      ∷ []))
    ∷ (entry "withranges_3acount_3a" "withRanges:count:" (
        target "../interface_h_f_range_wrapper.html#a4c0de04b0544c969939664d00960a5e9"
          "HFRangeWrapper::withRanges:count:()"
        ∷ target "../interface_h_f_range_set.html#af6f071120fe00346c0bd1c7c3a987ea5"
            "HFRangeSet::withRanges:count:()"
        ∷ []))
    ∷ (entry "withrangeset_3a" "withRangeSet:" (
        target "../interface_h_f_range_set.html#a0956124f9f9fa87cb58a8f25daea33db" "HFRangeSet"
        ∷ []))
    ∷ (entry "withrangewrappers_3a" "withRangeWrappers:" (
        target "../interface_h_f_range_set.html#ac03e56aa0ced91a4d85ff1eabcbf40c5" "HFRangeSet"
        ∷ []))
    ∷ (entry "writebytes_3alength_3ato_3a" "writeBytes:length:to:" (
        target "../interface_h_f_file_reference.html#ab337821f71ce9780c61d38593ecec358"
          "HFFileReference"
        ∷ []))
    ∷ (entry "writetofile_3atrackingprogress_3aerror_3a" "writeToFile:trackingProgress:error:" (
        target
          "../category_h_f_byte_array_07_h_f_file_writing_08.html#a9be82f7cd32f941cc94d1843ad9ad5e8"
          "HFByteArray(HFFileWriting)::writeToFile:trackingProgress:error:()"
        ∷ target "../interface_h_f_byte_array.html#a9be82f7cd32f941cc94d1843ad9ad5e8"
            "HFByteArray::writeToFile:trackingProgress:error:()"
        ∷ []))
    ∷ []

-- `searchData` of typedefs_0.js
abbrev pub typedefs_0 : List Entry
typedefs_0 =
    (entry "hfbytearraydatastringtype" "HFByteArrayDataStringType"
      (target "../_h_f_byte_array_8h.html#a2cd0cb024d2d0921ce5b5969370668e9" "HFByteArray.h" ∷ []))
    ∷ (entry "hfcontrollermovementdirection" "HFControllerMovementDirection" (
        target "../_h_f_controller_8h.html#a00d4d8e43f4905fcf60d08f366bb712d" "HFController.h"
        ∷ []))
    ∷ (entry "hfcontrollermovementgranularity" "HFControllerMovementGranularity" (
        target "../_h_f_controller_8h.html#a85567732295808b437a449000cb99aa4" "HFController.h"
        ∷ []))
    ∷ (entry "hfcontrollerpropertybits" "HFControllerPropertyBits" (
        target "../_h_f_controller_8h.html#ae473352f77f187f538750e531d32be11" "HFController.h"
        ∷ []))
    ∷ (entry "hfcontrollerselectiontransformation" "HFControllerSelectionTransformation" (
        target "../_h_f_controller_8h.html#ad0384e8e2f0210f793c5486e053a1d20" "HFController.h"
        ∷ []))
    ∷ (entry "hfeditmode" "HFEditMode" (
        target "../_h_f_controller_8h.html#ad13ffd272edcee009bd94cac69614ff7" "HFController.h"
        ∷ []))
    ∷ (entry "hflinenumberformat" "HFLineNumberFormat" (
        target "../_h_f_line_counting_representer_8h.html#a8fce276601dd1b62bdb59eba373f56e5"
          "HFLineCountingRepresenter.h"
        ∷ []))
    ∷ (entry "hfstatusbarmode" "HFStatusBarMode" (
        target "../_h_f_status_bar_representer_8h.html#a0c4a61ddaf9e04b472ea096efe44566e"
          "HFStatusBarRepresenter.h"
        ∷ []))
    ∷ []

-- `searchData` of enums_0.js
abbrev pub enums_0 : List Entry
enums_0 =
    (entry "hfbytearraydatastringtype" "HFByteArrayDataStringType"
      (target "../_h_f_byte_array_8h.html#a1af2563dbaa452271bb8d8967f2443be" "HFByteArray.h" ∷ []))
    ∷ (entry "hfcontrollermovementdirection" "HFControllerMovementDirection" (
        target "../_h_f_controller_8h.html#a375dde7ced2bf775954f9e950eec3add" "HFController.h"
        ∷ []))
    ∷ (entry "hfcontrollermovementgranularity" "HFControllerMovementGranularity" (
        target "../_h_f_controller_8h.html#af7604c610ec5c06d5e9f65ae96fb6aa4" "HFController.h"
        ∷ []))
    ∷ (entry "hfcontrollerpropertybits" "HFControllerPropertyBits" (
        target "../_h_f_controller_8h.html#adfb5b0d9c70a4b65379361b34ba1aea5" "HFController.h"
        ∷ []))
    ∷ (entry "hfcontrollerselectiontransformation" "HFControllerSelectionTransformation" (
        target "../_h_f_controller_8h.html#a5439328d873d33dd7baf4622c28a513f" "HFController.h"
        ∷ []))
    ∷ (entry "hfeditmode" "HFEditMode" (
        target "../_h_f_controller_8h.html#a699a6c9cf2166c36da490e29d6ed2473" "HFController.h"
        ∷ []))
    ∷ (entry "hflinenumberformat" "HFLineNumberFormat" (
        target "../_h_f_line_counting_representer_8h.html#ab910967284ab6c817dbd44531c4a3a2e"
          "HFLineCountingRepresenter.h"
        ∷ []))
    ∷ (entry "hfstatusbarmode" "HFStatusBarMode" (
        target "../_h_f_status_bar_representer_8h.html#a448ec6194653637a96cae094314c667a"
          "HFStatusBarRepresenter.h"
        ∷ []))
    ∷ []

-- `searchData` of properties_a.js
abbrev pub properties_a : List Entry
properties_a =
    (entry "selectedcontentsranges" "selectedContentsRanges" (
      target "../interface_h_f_controller.html#a756334ab2576fda6191f396424eb032a" "HFController"
      ∷ []))
    ∷ (entry "shouldantialias" "shouldAntialias" (
        target "../interface_h_f_controller.html#a84544b8696b23b09c57d4109b66aff32" "HFController"
        ∷ []))
    ∷ (entry "shouldcolorbytes" "shouldColorBytes" (
        target "../interface_h_f_controller.html#a6b5134d1f69168837f03bebaa9cba8a8" "HFController"
        ∷ []))
    ∷ (entry "shouldhidenullbytes" "shouldHideNullBytes" (
        target "../interface_h_f_controller.html#abb13ce4a51b7bf13e0c801ef7efc5714" "HFController"
        ∷ []))
    ∷ (entry "shouldlivereload" "shouldLiveReload" (
        target "../interface_h_f_controller.html#aa7a2e2b3a4e90c3c56ba3129cfecf8b6" "HFController"
        ∷ []))
    ∷ (entry "shouldshowcallouts" "shouldShowCallouts" (
        target "../interface_h_f_controller.html#aea515702f7baa6ee15205e02522bd6d6" "HFController"
        ∷ []))
    ∷ (entry "statusmode" "statusMode" (
        target "../interface_h_f_status_bar_representer.html#a8e8fa3b07004884410fac6fbae29df83"
          "HFStatusBarRepresenter"
        ∷ []))
    ∷ (entry "stringencoding" "stringEncoding" (
        target "../interface_h_f_text_field.html#a97178ae56f842d12baf2809f766c09cd" "HFTextField"
        ∷ []))
    ∷ []

-- `searchData` of properties_b.js
abbrev pub properties_b : List Entry
properties_b =
    (entry "undomanager" "undoManager" (
      target "../interface_h_f_controller.html#a6de9ee37b5cd96782914f3eeebc90b16" "HFController"
      ∷ []))
    ∷ (entry "userinfo" "userInfo" (
        target "../interface_h_f_progress_tracker.html#a170fc0d588dc427ffd63a2a33f599315"
          "HFProgressTracker"
        ∷ []))
    ∷ (entry "useshexarea" "usesHexArea" (
        target "../interface_h_f_text_field.html#a68a7e08a9d0e45e5c1c4d892a3b8ef3e" "HFTextField"
        ∷ []))
    ∷ (entry "usestextarea" "usesTextArea" (
        target "../interface_h_f_text_field.html#a1b7eaa7ea5924fcd379a68a2e8cffd4f" "HFTextField"
        ∷ []))
    ∷ []

-- `searchData` of defines_0.js
abbrev pub defines_0 : List Entry
defines_0 =
    (entry "hfdefault_5ffont" "HFDEFAULT_FONT"
      (target "../_h_f_functions_8h.html#ab08435c6a01cfe5cd77158388f22167f" "HFFunctions.h" ∷ []))
    ∷ (entry "hfdefault_5ffontsize" "HFDEFAULT_FONTSIZE"
        (target "../_h_f_functions_8h.html#afe1c300d17bd4eee18b785b5a57296ac" "HFFunctions.h" ∷ []))
    ∷ (entry "hfzerorange" "HFZeroRange"
        (target "../_h_f_functions_8h.html#aae371535050d473bf449536855db6af4" "HFFunctions.h" ∷ []))
    ∷ []

-- `searchData` of groups_0.js
abbrev pub groups_0 : List Entry
groups_0 = (entry "controller" "Controller" (target "../group__controller.html" "" ∷ [])) ∷ []

-- `searchData` of groups_1.js
abbrev pub groups_1 : List Entry
groups_1 = (entry "high_20level" "High Level" (target "../group__highlevel.html" "" ∷ [])) ∷ []

-- `searchData` of groups_2.js
abbrev pub groups_2 : List Entry
groups_2 = (entry "model" "Model" (target "../group__model.html" "" ∷ [])) ∷ []

-- `searchData` of groups_3.js
abbrev pub groups_3 : List Entry
groups_3 = (entry "view" "View" (target "../group__view.html" "" ∷ [])) ∷ []

-- `searchData` of pages_0.js
abbrev pub pages_0 : List Entry
pages_0 = (entry "hexfiend_2eframework" "HexFiend.framework" (target "../index.html" "" ∷ [])) ∷ []
