-- ===== src/Search/Data/FunctionsETo10.antt =====
-- The entries of docs/docs/search/functions_*.js.
use hex_fiend.Prelude.{List, [], ◌∷◌}
use hex_fiend.Search.Results.{Entry}
use hex_fiend.Search.Data.{entry, target}

-- `searchData` of functions_e.js
abbrev pub functions_e : List Entry
functions_e =
    (entry "rangeatindex_3a" "rangeAtIndex:" (
      target "../interface_h_f_index_set.html#aac922c7b39c6690629f1da3c36afa6d2" "HFIndexSet" ∷ []))
    ∷ (entry "rangecontainingvalue_3a" "rangeContainingValue:" (
        target "../interface_h_f_index_set.html#a0e10a9ccc7222f41ceb3a36f7003c9b3" "HFIndexSet"
        ∷ []))
    ∷ (entry "rangeforbookmark_3a" "rangeForBookmark:" (
        target "../interface_h_f_controller.html#af9c1dd8642e2699e3905607af4baebda" "HFController"
        ∷ []))
    ∷ (entry "rangeofattribute_3a" "rangeOfAttribute:" (
        target "../interface_h_f_byte_range_attribute_array.html#aae10f3160458ce71b4c4918702c7fedc"
          "HFByteRangeAttributeArray"
        ∷ []))
    ∷ (entry "rangesoffilemodifiedifsavedtofile_3a" "rangesOfFileModifiedIfSavedToFile:" (
        target
          "../category_h_f_byte_array_07_h_f_file_writing_08.html#a44e1ab1943523b12bfd2e423ec87274a"
          "HFByteArray(HFFileWriting)::rangesOfFileModifiedIfSavedToFile:()"
        ∷ target "../interface_h_f_byte_array.html#a44e1ab1943523b12bfd2e423ec87274a"
            "HFByteArray::rangesOfFileModifiedIfSavedToFile:()"
        ∷ []))
    ∷ (entry "readbytes_3alength_3afrom_3a" "readBytes:length:from:" (
        target "../interface_h_f_file_reference.html#a99d57d3f3eaa0fef37952db64219b989"
          "HFFileReference"
        ∷ []))
    ∷ (entry "removeattribute_3a" "removeAttribute:" (
        target "../interface_h_f_byte_range_attribute_array.html#a0c4530040ea53b75ef33f63fff664e2c"
          "HFByteRangeAttributeArray"
        ∷ []))
    ∷ (entry "removeattribute_3arange_3a" "removeAttribute:range:" (
        target "../interface_h_f_byte_range_attribute_array.html#aa564cdabfeac39cba79a148c7fee3028"
          "HFByteRangeAttributeArray"
        ∷ []))
    ∷ (entry "removeattributes_3a" "removeAttributes:" (
        target "../interface_h_f_byte_range_attribute_array.html#a8f27bf5aa3cd4f15a7a0a9545735f821"
          "HFByteRangeAttributeArray"
        ∷ []))
    ∷ (entry "removeindexesinrange_3a" "removeIndexesInRange:" (
        target "../interface_h_f_mutable_index_set.html#ac0fa7ca76b185a877e73c5610d7c2874"
          "HFMutableIndexSet"
        ∷ []))
    ∷ (entry "removerange_3a" "removeRange:" (
        target "../interface_h_f_range_set.html#ab28c45efa4ac0ce0400e9cc59ea73364" "HFRangeSet"
        ∷ []))
    ∷ (entry "removerangeset_3a" "removeRangeSet:" (
        target "../interface_h_f_range_set.html#a9b0ca24f59bbc43cd4dd70eb354cb129" "HFRangeSet"
        ∷ []))
    ∷ (entry "removerepresenter_3a" "removeRepresenter:" (
        target "../interface_h_f_controller.html#a86c8210e506241fd9ffcf1178ccda638"
          "HFController::removeRepresenter:()"
        ∷ target "../interface_h_f_layout_representer.html#af54fc4c854ced0f713066d330e962ee4"
            "HFLayoutRepresenter::removeRepresenter:()"
        ∷ []))
    ∷ (entry "replacebytearray_3a" "replaceByteArray:" (
        target "../interface_h_f_controller.html#ace0be446660da37a3cdb792147eb4450" "HFController"
        ∷ []))
    ∷ (entry "representer_3achangedproperties_3a" "representer:changedProperties:" (
        target "../interface_h_f_controller.html#af4ad4d24f57132e3d27a054ab8bfd89b" "HFController"
        ∷ []))
    ∷ (entry "representerchangedproperties_3a" "representerChangedProperties:" (
        target "../interface_h_f_representer.html#a009d8e81dc63b3484e502e99a5b2874a" "HFRepresenter"
        ∷ []))
    ∷ (entry "requestcancel_3a" "requestCancel:" (
        target "../interface_h_f_progress_tracker.html#a299c54a607ad4be3be15ab40bd612265"
          "HFProgressTracker"
        ∷ []))
    ∷ []

-- `searchData` of functions_f.js
abbrev pub functions_f : List Entry
functions_f =
    (entry "scrollbylines_3a" "scrollByLines:" (
      target "../interface_h_f_controller.html#a101555ad8fbdad75022ba0ad59c43cc3" "HFController"
      ∷ []))
    ∷ (entry "scrollwithscrollevent_3a" "scrollWithScrollEvent:" (
        target "../interface_h_f_controller.html#ad360138919e9089c6edd7868a318bb93" "HFController"
        ∷ []))
    ∷ (entry "selectall_3a" "selectAll:" (
        target "../interface_h_f_controller.html#aaba68329641a7b726a5ce15a6497b5c5" "HFController"
        ∷ []))
    ∷ (entry "selectionpulseamount" "selectionPulseAmount" (
        target "../interface_h_f_controller.html#a880de2a78166ed64f22643e7f71428ea" "HFController"
        ∷ []))
    ∷ (entry "setlength_3aerror_3a" "setLength:error:" (
        target "../interface_h_f_file_reference.html#ab8e6713bf53af17ba1f53202b1287978"
          "HFFileReference"
        ∷ []))
    ∷ (entry "setrange_3aforbookmark_3a" "setRange:forBookmark:" (
        target "../interface_h_f_controller.html#ab4ad47abb8b332730ee6f70a41ebcb6d" "HFController"
        ∷ []))
    ∷ (entry "shiftvaluesleftbyamount_3aendingatvalue_3a" "shiftValuesLeftByAmount:endingAtValue:" (
        target "../interface_h_f_mutable_index_set.html#afcac87e3da4258d4323c497f24105354"
          "HFMutableIndexSet"
        ∷ []))
    ∷ (entry "shiftvaluesleftbyamount_3astartingatvalue_3a"
        "shiftValuesLeftByAmount:startingAtValue:"
        (target "../interface_h_f_mutable_index_set.html#a3338a670815bd455c4f6b01fa1433063"
            "HFMutableIndexSet"
          ∷ []))
    ∷ (entry "shiftvaluesrightbyamount_3astartingatvalue_3a"
        "shiftValuesRightByAmount:startingAtValue:"
        (target "../interface_h_f_mutable_index_set.html#a27d6d5fdf2967cd73526fa4ce0985dad"
            "HFMutableIndexSet"
          ∷ []))
    ∷ (entry "slicecontainingbyteatindex_3abeginningoffset_3a"
        "sliceContainingByteAtIndex:beginningOffset:"
        (target "../interface_h_f_byte_array.html#a5b680933f4afc7d8b7456e9e2c025025" "HFByteArray"
          ∷ []))
    ∷ (entry "sourcerangeforfile_3a" "sourceRangeForFile:" (
        target "../interface_h_f_byte_slice.html#a0bb3be9593aed4f2ddaa24b50ac818da" "HFByteSlice"
        ∷ []))
    ∷ (entry "spanningrange" "spanningRange" (
        target "../interface_h_f_range_set.html#adc2eeb205db20c94427fcfd35bdd4240" "HFRangeSet"
        ∷ []))
    ∷ (entry "subarraywithrange_3a" "subarrayWithRange:" (
        target "../interface_h_f_byte_array.html#a6b8cac4d751fbc61456630ee141beb64" "HFByteArray"
        ∷ []))
    ∷ (entry "subslicewithrange_3a" "subsliceWithRange:" (
        target "../interface_h_f_byte_slice.html#a955b9f5a9ca54031c6d2b185c3adbef1" "HFByteSlice"
        ∷ []))
    ∷ []

-- `searchData` of functions_10.js
abbrev pub functions_10 : List Entry
functions_10 =
    (entry "togglerange_3a" "toggleRange:" (
      target "../interface_h_f_range_set.html#a97684c36f232035b98cfac401ec1b352" "HFRangeSet" ∷ []))
    ∷ (entry "togglerangeset_3a" "toggleRangeSet:" (
        target "../interface_h_f_range_set.html#af917bfd25d03a43fc8ccae33e50e7004" "HFRangeSet"
        ∷ []))
    ∷ (entry "totallinecount" "totalLineCount" (
        target "../interface_h_f_controller.html#a0d622d3c4081ac3d02c31ea10b7e36e0" "HFController"
        ∷ []))
    ∷ (entry "transferattributesfromattributearray_3arange_3abaseoffset_3avalidator_3a"
        "transferAttributesFromAttributeArray:range:baseOffset:validator:"
        (target "../interface_h_f_byte_range_attribute_array.html#aaa526c83b2f3c278b5f77d957f6f340b"
            "HFByteRangeAttributeArray"
          ∷ []))
    ∷ []
