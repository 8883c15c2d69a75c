-- ===== src/Search/Data/All0To2.antt =====
-- The entries of docs/docs/search/all_*.js.
use hex_fiend.Prelude.{List, [], ◌∷◌}
use hex_fiend.Search.Results.{Entry}
use hex_fiend.Search.Data.{entry, target}

-- `searchData` of all_0.js
abbrev pub all_0 : List Entry
all_0 =
    (entry "_5fhfflags" "_hfflags" (
      target "../interface_h_f_controller.html#a1875b07981f69ff10d2a9d0f80a8692b" "HFController"
      ∷ []))
    ∷ []

-- `searchData` of all_1.js
abbrev pub all_1 : List Entry
all_1 =
    (entry "addattribute_3arange_3a" "addAttribute:range:" (
      target "../interface_h_f_byte_range_attribute_array.html#a2b66b8985f579eb9e926e847a80262b0"
        "HFByteRangeAttributeArray"
      ∷ []))
    ∷ (entry "addindexesinrange_3a" "addIndexesInRange:" (
        target "../interface_h_f_mutable_index_set.html#ad998934060aa345871d5d9b6dc26dcf1"
          "HFMutableIndexSet"
        ∷ []))
    ∷ (entry "addrange_3a" "addRange:" (
        target "../interface_h_f_range_set.html#a653a286582d255e32e46817a0bc65df7" "HFRangeSet"
        ∷ []))
    ∷ (entry "addrangeset_3a" "addRangeSet:" (
        target "../interface_h_f_range_set.html#a636758df1794511d60df742651181535" "HFRangeSet"
        ∷ []))
    ∷ (entry "addrepresenter_3a" "addRepresenter:" (
        target "../interface_h_f_controller.html#ad73e4ffe460788bcd9eb92ce787e1bb3"
          "HFController::addRepresenter:()"
        ∷ target "../interface_h_f_layout_representer.html#aca136d6a74a923a097b4db784e9af1d5"
            "HFLayoutRepresenter::addRepresenter:()"
        ∷ []))
    ∷ (entry "applytobytearray_3a" "applyToByteArray:" (
        target "../interface_h_f_byte_array_edit_script.html#aed4c72ace131149a1a411422425d3bec"
          "HFByteArrayEditScript"
        ∷ []))
    ∷ (entry "assertintegrity" "assertIntegrity" (
        target "../interface_h_f_range_set.html#acbe0f601394a711908d17a142bd61227" "HFRangeSet"
        ∷ []))
    ∷ (entry "attributeenumerator" "attributeEnumerator" (
        target "../interface_h_f_byte_range_attribute_array.html#ae6599c45b61225a38f68e0dac6dbbf0a"
          "HFByteRangeAttributeArray"
        ∷ []))
    ∷ (entry "attributesatindex_3alength_3a" "attributesAtIndex:length:" (
        target "../interface_h_f_byte_range_attribute_array.html#a8216048811d6fd851c8f33e1dcc89a17"
          "HFByteRangeAttributeArray"
        ∷ []))
    ∷ (entry "attributesforbytesinrange_3a" "attributesForBytesInRange:" (
        target
          "../category_h_f_byte_array_07_h_f_attributes_08.html#aac315a01effd4c2c4862294b4f1d6891"
          "HFByteArray(HFAttributes)::attributesForBytesInRange:()"
        ∷ target
            "../category_h_f_byte_slice_07_h_f_attributes_08.html#a5c49476fd844bb0f18621471f41981a3"
            "HFByteSlice(HFAttributes)::attributesForBytesInRange:()"
        ∷ target "../interface_h_f_controller.html#aee334d276545d87999f50068d92fdbc9"
            "HFController::attributesForBytesInRange:()"
        ∷ target "../interface_h_f_byte_array.html#aac315a01effd4c2c4862294b4f1d6891"
            "HFByteArray::attributesForBytesInRange:()"
        ∷ target "../interface_h_f_byte_slice.html#a5c49476fd844bb0f18621471f41981a3"
            "HFByteSlice::attributesForBytesInRange:()"
        ∷ []))
    ∷ (entry "attributesinrange_3a" "attributesInRange:" (
        target "../interface_h_f_byte_range_attribute_array.html#adb2542400be59ee59e4a305190b82cdd"
          "HFByteRangeAttributeArray"
        ∷ []))
    ∷ []

-- `searchData` of all_2.js
abbrev pub all_2 : List Entry
all_2 =
    (entry "backgroundcolor" "backgroundColor" (
      target "../interface_h_f_line_counting_representer.html#a0ab44d5d715a26e07b14801ff7776022"
        "HFLineCountingRepresenter"
      ∷ []))
    ∷ (entry "backgroundcolors" "backgroundColors" (
        target "../interface_h_f_text_view.html#ae72dcd17255a7ea08d9afac1ef7ac011" "HFTextView"
        ∷ []))
    ∷ (entry "beginpropertychangetransaction" "beginPropertyChangeTransaction" (
        target "../interface_h_f_controller.html#ae06e532a971d22fdbee319e6d945dfc0" "HFController"
        ∷ []))
    ∷ (entry "beginselectionwithevent_3aforbyteindex_3a" "beginSelectionWithEvent:forByteIndex:" (
        target "../interface_h_f_controller.html#ace15457e82be596d88508f57450743e4" "HFController"
        ∷ []))
    ∷ (entry "begintrackingprogress" "beginTrackingProgress" (
        target "../interface_h_f_progress_tracker.html#a5ade4a43db3775d7d3c956b35963fc76"
          "HFProgressTracker"
        ∷ []))
    ∷ (entry "behavesastextfield" "behavesAsTextField" (
        target "../interface_h_f_text_representer.html#a87a0e97b488cc308ceca0630f8f6e64a"
          "HFTextRepresenter"
        ∷ []))
    ∷ (entry "bookmarksinrange_3a" "bookmarksInRange:" (
        target "../interface_h_f_controller.html#a2d070cf8360a9a5caf0ecabcb68e826e" "HFController"
        ∷ []))
    ∷ (entry "bordercolor" "borderColor" (
        target "../interface_h_f_line_counting_representer.html#a08051178f23c25c80d1dd0e7034930a8"
          "HFLineCountingRepresenter"
        ∷ []))
    ∷ (entry "bordered" "bordered" (
        target "../interface_h_f_text_view.html#a0cb285a81aa81b206b05ba8d3264ff28" "HFTextView"
        ∷ []))
    ∷ (entry "borderededges" "borderedEdges" (
        target "../interface_h_f_line_counting_representer.html#a3598bdd028eaea3c377171b0870dde91"
          "HFLineCountingRepresenter"
        ∷ []))
    ∷ (entry "bytearray" "byteArray" (
        target "../interface_h_f_controller.html#a8e3c9ca47f754544fef36de9d7e0f56e"
          "HFController::byteArray()"
        ∷ target "../interface_h_f_text_view.html#aea80bb47bbffaa395493c5237db4b578"
            "HFTextView::byteArray()"
        ∷ []))
    ∷ (entry "bytearrayforselectedcontentsranges" "byteArrayForSelectedContentsRanges" (
        target "../interface_h_f_controller.html#a7fbfe5277deb412a9cf30e4d23768d6a" "HFController"
        ∷ []))
    ∷ (entry "bytegranularity" "byteGranularity" (
        target "../interface_h_f_representer.html#a5393437fbe020d3079a979a7383eb67b" "HFRepresenter"
        ∷ []))
    ∷ (entry "byterange_3awasreplacedbybytesoflength_3a" "byteRange:wasReplacedByBytesOfLength:" (
        target "../interface_h_f_byte_range_attribute_array.html#a9db89350dd7344ea736dbca3e7571ff4"
          "HFByteRangeAttributeArray"
        ∷ []))
    ∷ (entry "byterangeattributearray" "byteRangeAttributeArray" (
        target
          "../category_h_f_byte_array_07_h_f_attributes_08.html#a9e7df21b4d7418dcfbb5e08dd08a3d13"
          "HFByteArray(HFAttributes)::byteRangeAttributeArray()"
        ∷ target "../interface_h_f_controller.html#ae6f97f85a07846c175eec9d120b7ab0c"
            "HFController::byteRangeAttributeArray()"
        ∷ target "../interface_h_f_byte_array.html#a9e7df21b4d7418dcfbb5e08dd08a3d13"
            "HFByteArray::byteRangeAttributeArray()"
        ∷ []))
    ∷ (entry "byteslicebyappendingslice_3a" "byteSliceByAppendingSlice:" (
        target "../interface_h_f_byte_slice.html#a07d6bdb1e6133abd396792a6d4f7a174" "HFByteSlice"
        ∷ []))
    ∷ (entry "bytesliceenumerator" "byteSliceEnumerator" (
        target "../interface_h_f_byte_array.html#a97980272d1583849b2ba0db9c3d28448" "HFByteArray"
        ∷ []))
    ∷ (entry "byteslices" "byteSlices" (
        target "../interface_h_f_byte_array.html#ad5bc7decb596b958f03659fecc8ab2cf" "HFByteArray"
        ∷ []))
    ∷ (entry "bytespercolumn" "bytesPerColumn" (
        target "../interface_h_f_controller.html#a669a1b434286d5a7a7f2d43db782317b"
          "HFController::bytesPerColumn()"
        ∷ target "../interface_h_f_representer.html#ae4f756afd4c3b7c44f710fa7374c582d"
            "HFRepresenter::bytesPerColumn()"
        ∷ []))
    ∷ (entry "bytesperline" "bytesPerLine" (
        target "../interface_h_f_line_counting_view.html#ad237d4ffeb03834233baa7c55897963c"
          "HFLineCountingView::bytesPerLine()"
        ∷ target "../interface_h_f_controller.html#aed984819ab1e75a22e77b6635fcd4fac"
            "HFController::bytesPerLine()"
        ∷ target "../interface_h_f_representer.html#a821a42b782b48dd2dda877807f0eff54"
            "HFRepresenter::bytesPerLine()"
        ∷ []))
    ∷ []
