-- ===== src/Search/Data/All11To14.antt =====
-- The entries of docs/docs/search/all_*.js.
use hex_fiend.Prelude.{List, [], ◌∷◌}
use hex_fiend.Search.Results.{Entry}
use hex_fiend.Search.Data.{entry, target}

-- `searchData` of all_11.js
abbrev pub all_11 : List Entry
all_11 =
    (entry "scrollbylines_3a" "scrollByLines:" (
      target "../interface_h_f_controller.html#a101555ad8fbdad75022ba0ad59c43cc3" "HFController"
      ∷ []))
    ∷ (entry "scrollwithscrollevent_3a" "scrollWithScrollEvent:" (
        target "../interface_h_f_controller.html#ad360138919e9089c6edd7868a318bb93" "HFController"
        ∷ []))
    ∷ (entry "selectall_3a" "selectAll:" (
        target "../interface_h_f_controller.html#aaba68329641a7b726a5ce15a6497b5c5" "HFController"
        ∷ []))
    ∷ (entry "selectedcontentsranges" "selectedContentsRanges" (
        target "../interface_h_f_controller.html#a756334ab2576fda6191f396424eb032a" "HFController"
        ∷ []))
    ∷ (entry "selectionpulseamount" "selectionPulseAmount" (
        target "../interface_h_f_controller.html#a880de2a78166ed64f22643e7f71428ea" "HFController"
        ∷ []))
    ∷ (entry "setlength_3aerror_3a" "setLength:error:" (
        target "../interface_h_f_file_reference.html#ab8e6713bf53af17ba1f53202b1287978"
          "HFFileReference"
        ∷ []))
    ∷ (entry "setrange_3aforbookmark_3a" "setRange:forBookmark:" (
        target "../interface_h_f_controller.html#ab4ad47abb8b332730ee6f70a41ebcb6d" "HFController"
        ∷ []))
    ∷ (entry "shiftvaluesleftbyamount_3aendingatvalue_3a" "shiftValuesLeftByAmount:endingAtValue:" (
        target "../interface_h_f_mutable_index_set.html#afcac87e3da4258d4323c497f24105354"
          "HFMutableIndexSet"
        ∷ []))
    ∷ (entry "shiftvaluesleftbyamount_3astartingatvalue_3a"
        "shiftValuesLeftByAmount:startingAtValue:"
        (target "../interface_h_f_mutable_index_set.html#a3338a670815bd455c4f6b01fa1433063"
            "HFMutableIndexSet"
          ∷ []))
    ∷ (entry "shiftvaluesrightbyamount_3astartingatvalue_3a"
        "shiftValuesRightByAmount:startingAtValue:"
        (target "../interface_h_f_mutable_index_set.html#a27d6d5fdf2967cd73526fa4ce0985dad"
            "HFMutableIndexSet"
          ∷ []))
    ∷ (entry "shouldantialias" "shouldAntialias" (
        target "../interface_h_f_controller.html#a84544b8696b23b09c57d4109b66aff32" "HFController"
        ∷ []))
    ∷ (entry "shouldcolorbytes" "shouldColorBytes" (
        target "../interface_h_f_controller.html#a6b5134d1f69168837f03bebaa9cba8a8" "HFController"
        ∷ []))
    ∷ (entry "shouldhidenullbytes" "shouldHideNullBytes" (
        target "../interface_h_f_controller.html#abb13ce4a51b7bf13e0c801ef7efc5714" "HFController"
        ∷ []))
    ∷ (entry "shouldlivereload" "shouldLiveReload" (
        target "../interface_h_f_controller.html#aa7a2e2b3a4e90c3c56ba3129cfecf8b6" "HFController"
        ∷ []))
    ∷ (entry "shouldshowcallouts" "shouldShowCallouts" (
        target "../interface_h_f_controller.html#aea515702f7baa6ee15205e02522bd6d6" "HFController"
        ∷ []))
    ∷ (entry "slicecontainingbyteatindex_3abeginningoffset_3a"
        "sliceContainingByteAtIndex:beginningOffset:"
        (target "../interface_h_f_byte_array.html#a5b680933f4afc7d8b7456e9e2c025025" "HFByteArray"
          ∷ []))
    ∷ (entry "sourcerangeforfile_3a" "sourceRangeForFile:" (
        target "../interface_h_f_byte_slice.html#a0bb3be9593aed4f2ddaa24b50ac818da" "HFByteSlice"
        ∷ []))
    ∷ (entry "spanningrange" "spanningRange" (
        target "../interface_h_f_range_set.html#adc2eeb205db20c94427fcfd35bdd4240" "HFRangeSet"
        ∷ []))
    ∷ (entry "src" "src" (
        target "../struct_h_f_edit_instruction__t.html#ae743ce1e89e17c0c44bbac29b4d7a5f2"
          "HFEditInstruction_t"
        ∷ []))
    ∷ (entry "statusmode" "statusMode" (
        target "../interface_h_f_status_bar_representer.html#a8e8fa3b07004884410fac6fbae29df83"
          "HFStatusBarRepresenter"
        ∷ []))
    ∷ (entry "stringencoding" "stringEncoding" (
        target "../interface_h_f_text_field.html#a97178ae56f842d12baf2809f766c09cd" "HFTextField"
        ∷ []))
    ∷ (entry "subarraywithrange_3a" "subarrayWithRange:" (
        target "../interface_h_f_byte_array.html#a6b8cac4d751fbc61456630ee141beb64" "HFByteArray"
        ∷ []))
    ∷ (entry "subslicewithrange_3a" "subsliceWithRange:" (
        target "../interface_h_f_byte_slice.html#a955b9f5a9ca54031c6d2b185c3adbef1" "HFByteSlice"
        ∷ []))
    ∷ []

-- `searchData` of all_12.js
abbrev pub all_12 : List Entry
all_12 =
    (entry "togglerange_3a" "toggleRange:" (
      target "../interface_h_f_range_set.html#a97684c36f232035b98cfac401ec1b352" "HFRangeSet" ∷ []))
    ∷ (entry "togglerangeset_3a" "toggleRangeSet:" (
        target "../interface_h_f_range_set.html#af917bfd25d03a43fc8ccae33e50e7004" "HFRangeSet"
        ∷ []))
    ∷ (entry "totallinecount" "totalLineCount" (
        target "../interface_h_f_controller.html#a0d622d3c4081ac3d02c31ea10b7e36e0" "HFController"
        ∷ []))
    ∷ (entry "transferattributesfromattributearray_3arange_3abaseoffset_3avalidator_3a"
        "transferAttributesFromAttributeArray:range:baseOffset:validator:"
        (target "../interface_h_f_byte_range_attribute_array.html#aaa526c83b2f3c278b5f77d957f6f340b"
            "HFByteRangeAttributeArray"
          ∷ []))
    ∷ []

-- `searchData` of all_13.js
abbrev pub all_13 : List Entry
all_13 =
    (entry "undomanager" "undoManager" (
      target "../interface_h_f_controller.html#a6de9ee37b5cd96782914f3eeebc90b16" "HFController"
      ∷ []))
    ∷ (entry "userinfo" "userInfo" (
        target "../interface_h_f_progress_tracker.html#a170fc0d588dc427ffd63a2a33f599315"
          "HFProgressTracker"
        ∷ []))
    ∷ (entry "useshexarea" "usesHexArea" (
        target "../interface_h_f_text_field.html#a68a7e08a9d0e45e5c1c4d892a3b8ef3e" "HFTextField"
        ∷ []))
    ∷ (entry "usestextarea" "usesTextArea" (
        target "../interface_h_f_text_field.html#a1b7eaa7ea5924fcd379a68a2e8cffd4f" "HFTextField"
        ∷ []))
    ∷ []

-- `searchData` of all_14.js
abbrev pub all_14 : List Entry
all_14 =
    (entry "verifyintegrity" "verifyIntegrity" (
      target "../interface_h_f_index_set.html#a60b3c2ff6ccbdbd53aa3474b0a2fa6c0" "HFIndexSet" ∷ []))
    ∷ (entry "view" "view" (
        target "../interface_h_f_representer.html#a9738e9e916b36b17e37b178234ee79fe"
          "HFRepresenter::view()"
        ∷ target "../group__view.html" "(Global Namespace)"
        ∷ []))
    ∷ []
