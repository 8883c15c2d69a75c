-- ===== src/Search/Data/AllDTo10.antt =====
-- The entries of docs/docs/search/all_*.js.
use hex_fiend.Prelude.{List, [], ◌∷◌}
use hex_fiend.Search.Results.{Entry}
use hex_fiend.Search.Data.{entry, target}

-- `searchData` of all_d.js
abbrev pub all_d : List Entry
all_d =
    (entry "notefinished_3a" "noteFinished:" (
      target "../interface_h_f_progress_tracker.html#aba06fdb74247bc38d96224e3de70911f"
        "HFProgressTracker"
      ∷ []))
    ∷ (entry "ns_5freturns_5fretained" "NS_RETURNS_RETAINED" (
        target "../interface_h_f_representer.html#a39e5e22b482218a8c38c384502ee1709" "HFRepresenter"
        ∷ []))
    ∷ (entry "numberofinstructions" "numberOfInstructions" (
        target "../interface_h_f_byte_array_edit_script.html#a17eba690f00007c17438213fe3fb7e8d"
          "HFByteArrayEditScript"
        ∷ []))
    ∷ (entry "numberofranges" "numberOfRanges" (
        target "../interface_h_f_index_set.html#aaa98eadcc8c05ad9a1c9ca56ddf98f82" "HFIndexSet"
        ∷ []))
    ∷ []

-- `searchData` of all_e.js
abbrev pub all_e : List Entry
all_e =
    (entry "organizeandmergeranges_3a" "organizeAndMergeRanges:" (
      target "../interface_h_f_range_wrapper.html#a76755f6e5a387cd1e534170373b46ca2"
        "HFRangeWrapper"
      ∷ []))
    ∷ (entry "overlapsanyrange_3a" "overlapsAnyRange:" (
        target "../interface_h_f_range_set.html#acb8f98edfda88bfa024dfcd5a86c3e44" "HFRangeSet"
        ∷ []))
    ∷ (entry "overlapsanyrangeset_3a" "overlapsAnyRangeSet:" (
        target "../interface_h_f_range_set.html#a395968acee921fe349e17836c314bdea" "HFRangeSet"
        ∷ []))
    ∷ []

-- `searchData` of all_f.js
abbrev pub all_f : List Entry
all_f =
    (entry "performlayout" "performLayout" (
      target "../interface_h_f_layout_representer.html#a4d2e3123689bdc1f6907fa75de4e4ab3"
        "HFLayoutRepresenter"
      ∷ []))
    ∷ (entry "preferredwidth" "preferredWidth" (
        target "../interface_h_f_line_counting_representer.html#ae4f9efe156f6d144487c8c7cbf43f679"
          "HFLineCountingRepresenter"
        ∷ []))
    ∷ (entry "prepareforchangeinfile_3afromwritingbytearray_3a"
        "prepareForChangeInFile:fromWritingByteArray:"
        (target "../interface_h_f_controller.html#a95d775e24dfb80cc0ca81e590d39ec62" "HFController"
          ∷ []))
    ∷ (entry "progressindicator" "progressIndicator" (
        target "../interface_h_f_progress_tracker.html#a33e655d87e0a1fa8a3412c615415ba90"
          "HFProgressTracker"
        ∷ []))
    ∷ (entry "progresstracker_3adidchangeprogressto_3a" "progressTracker:didChangeProgressTo:" (
        target
          "../protocol_h_f_progress_tracker_delegate_01-p.html#aa7b73fc866dd37d63f7496c1df9e5153"
          "HFProgressTrackerDelegate -p"
        ∷ []))
    ∷ (entry "progresstrackerdidfinish_3a" "progressTrackerDidFinish:" (
        target
          "../protocol_h_f_progress_tracker_delegate_01-p.html#ae82fd08914986284af542d1abe96e466"
          "HFProgressTrackerDelegate -p"
        ∷ []))
    ∷ (entry "pulseselection" "pulseSelection" (
        target "../interface_h_f_controller.html#abf7e8cacb521993742fd88db9a9ef77e" "HFController"
        ∷ []))
    ∷ []

-- `searchData` of all_10.js
abbrev pub all_10 : List Entry
all_10 =
    (entry "rangeatindex_3a" "rangeAtIndex:" (
      target "../interface_h_f_index_set.html#aac922c7b39c6690629f1da3c36afa6d2" "HFIndexSet" ∷ []))
    ∷ (entry "rangecontainingvalue_3a" "rangeContainingValue:" (
        target "../interface_h_f_index_set.html#a0e10a9ccc7222f41ceb3a36f7003c9b3" "HFIndexSet"
        ∷ []))
    ∷ (entry "rangeforbookmark_3a" "rangeForBookmark:" (
        target "../interface_h_f_controller.html#af9c1dd8642e2699e3905607af4baebda" "HFController"
        ∷ []))
    ∷ (entry "rangeofattribute_3a" "rangeOfAttribute:" (
        target "../interface_h_f_byte_range_attribute_array.html#aae10f3160458ce71b4c4918702c7fedc"
          "HFByteRangeAttributeArray"
        ∷ []))
    ∷ (entry "rangesoffilemodifiedifsavedtofile_3a" "rangesOfFileModifiedIfSavedToFile:" (
        target
          "../category_h_f_byte_array_07_h_f_file_writing_08.html#a44e1ab1943523b12bfd2e423ec87274a"
          "HFByteArray(HFFileWriting)::rangesOfFileModifiedIfSavedToFile:()"
        ∷ target "../interface_h_f_byte_array.html#a44e1ab1943523b12bfd2e423ec87274a"
            "HFByteArray::rangesOfFileModifiedIfSavedToFile:()"
        ∷ []))
    ∷ (entry "readbytes_3alength_3afrom_3a" "readBytes:length:from:" (
        target "../interface_h_f_file_reference.html#a99d57d3f3eaa0fef37952db64219b989"
          "HFFileReference"
        ∷ []))
    ∷ (entry "removeattribute_3a" "removeAttribute:" (
        target "../interface_h_f_byte_range_attribute_array.html#a0c4530040ea53b75ef33f63fff664e2c"
          "HFByteRangeAttributeArray"
        ∷ []))
    ∷ (entry "removeattribute_3arange_3a" "removeAttribute:range:" (
        target "../interface_h_f_byte_range_attribute_array.html#aa564cdabfeac39cba79a148c7fee3028"
          "HFByteRangeAttributeArray"
        ∷ []))
    ∷ (entry "removeattributes_3a" "removeAttributes:" (
        target "../interface_h_f_byte_range_attribute_array.html#a8f27bf5aa3cd4f15a7a0a9545735f821"
          "HFByteRangeAttributeArray"
        ∷ []))
    ∷ (entry "removeindexesinrange_3a" "removeIndexesInRange:" (
        target "../interface_h_f_mutable_index_set.html#ac0fa7ca76b185a877e73c5610d7c2874"
          "HFMutableIndexSet"
        ∷ []))
    ∷ (entry "removerange_3a" "removeRange:" (
        target "../interface_h_f_range_set.html#ab28c45efa4ac0ce0400e9cc59ea73364" "HFRangeSet"
        ∷ []))
    ∷ (entry "removerangeset_3a" "removeRangeSet:" (
        target "../interface_h_f_range_set.html#a9b0ca24f59bbc43cd4dd70eb354cb129" "HFRangeSet"
        ∷ []))
    ∷ (entry "removerepresenter_3a" "removeRepresenter:" (
        target "../interface_h_f_controller.html#a86c8210e506241fd9ffcf1178ccda638"
          "HFController::removeRepresenter:()"
        ∷ target "../interface_h_f_layout_representer.html#af54fc4c854ced0f713066d330e962ee4"
            "HFLayoutRepresenter::removeRepresenter:()"
        ∷ []))
    ∷ (entry "replacebytearray_3a" "replaceByteArray:" (
        target "../interface_h_f_controller.html#ace0be446660da37a3cdb792147eb4450" "HFController"
        ∷ []))
    ∷ (entry "representer" "representer" (
        target "../interface_h_f_line_counting_view.html#a3ce930dee3ecb47d20e254c66c83632d"
          "HFLineCountingView"
        ∷ []))
    ∷ (entry "representer_3achangedproperties_3a" "representer:changedProperties:" (
        target "../interface_h_f_controller.html#af4ad4d24f57132e3d27a054ab8bfd89b" "HFController"
        ∷ []))
    ∷ (entry "representerchangedproperties_3a" "representerChangedProperties:" (
        target "../interface_h_f_representer.html#a009d8e81dc63b3484e502e99a5b2874a" "HFRepresenter"
        ∷ []))
    ∷ (entry "representers" "representers" (
        target "../interface_h_f_controller.html#a165dbb3c3e4c7f8154b2349b0d132147"
          "HFController::representers()"
        ∷ target "../interface_h_f_layout_representer.html#a6c8494accd0fd1ef12bb6bf5f24860f9"
            "HFLayoutRepresenter::representers()"
        ∷ []))
    ∷ (entry "requestcancel_3a" "requestCancel:" (
        target "../interface_h_f_progress_tracker.html#a299c54a607ad4be3be15ab40bd612265"
          "HFProgressTracker"
        ∷ []))
    ∷ (entry "rowbackgroundcolors" "rowBackgroundColors" (
        target "../interface_h_f_text_representer.html#a0b4cd25fe610f2cac726eb8556e30686"
          "HFTextRepresenter"
        ∷ []))
    ∷ []
