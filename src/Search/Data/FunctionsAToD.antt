-- ===== src/Search/Data/FunctionsAToD.antt =====
-- The entries of docs/docs/search/functions_*.js.
use hex_fiend.Prelude.{List, [], ◌∷◌}
use hex_fiend.Search.Results.{Entry}
use hex_fiend.Search.Data.{entry, target}

-- `searchData` of functions_a.js
abbrev pub functions_a : List Entry
functions_a =
    (entry "maximizevisibilityofcontentsrange_3a" "maximizeVisibilityOfContentsRange:" (
      target "../interface_h_f_controller.html#a56a018dd37edf85c0827b1ddb8033c1e" "HFController"
      ∷ []))
    ∷ (entry "maximumavailablelinesforviewheight_3a" "maximumAvailableLinesForViewHeight:" (
        target "../interface_h_f_representer.html#a2b6f9c8eda1d96dcc31bb850fb9048fd" "HFRepresenter"
        ∷ []))
    ∷ (entry "maximumbytesperlineforlayoutinproposedwidth_3a"
        "maximumBytesPerLineForLayoutInProposedWidth:"
        (target "../interface_h_f_layout_representer.html#a7a73dfcea5490b43e0939d53f283328f"
            "HFLayoutRepresenter"
          ∷ []))
    ∷ (entry "maximumbytesperlineforviewwidth_3a" "maximumBytesPerLineForViewWidth:" (
        target "../interface_h_f_representer.html#a7b93407c240a3f821f810d1f33faf0ac" "HFRepresenter"
        ∷ []))
    ∷ (entry "maximumselectionlocation" "maximumSelectionLocation" (
        target "../interface_h_f_controller.html#a49bbc9b470ded0129647c4f8e43f3238" "HFController"
        ∷ []))
    ∷ (entry "minimumselectionlocation" "minimumSelectionLocation" (
        target "../interface_h_f_controller.html#a93786a0f5d77922ebd0ff33ec86cf619" "HFController"
        ∷ []))
    ∷ (entry "minimumviewwidthforbytesperline_3a" "minimumViewWidthForBytesPerLine:" (
        target "../interface_h_f_layout_representer.html#ab3434437784555fdbe449665334e5f2b"
          "HFLayoutRepresenter::minimumViewWidthForBytesPerLine:()"
        ∷ target "../interface_h_f_representer.html#acf56b3dfdb9c607c6871d2ef9abe5a91"
            "HFRepresenter::minimumViewWidthForBytesPerLine:()"
        ∷ []))
    ∷ (entry "minimumviewwidthforlayoutinproposedwidth_3a"
        "minimumViewWidthForLayoutInProposedWidth:"
        (target "../interface_h_f_layout_representer.html#abe8b9fb073e8431e28d803ad74497253"
            "HFLayoutRepresenter"
          ∷ []))
    ∷ (entry "moveindirection_3abybytecount_3awithselectiontransformation_3ausinganchor_3a"
        "moveInDirection:byByteCount:withSelectionTransformation:usingAnchor:"
        (target "../interface_h_f_controller.html#a748da633f56f9862fe4d3a5d5a667364" "HFController"
          ∷ []))
    ∷ (entry "moveindirection_3awithgranularity_3aandmodifyselection_3a"
        "moveInDirection:withGranularity:andModifySelection:"
        (target "../interface_h_f_controller.html#af33f09cabf1b0bd4862186fcc97fc4e8" "HFController"
          ∷ []))
    ∷ (entry "movetolineboundaryindirection_3aandmodifyselection_3a"
        "moveToLineBoundaryInDirection:andModifySelection:"
        (target "../interface_h_f_controller.html#a0b9b93cb1a643e75206bcb6d9197fe55" "HFController"
          ∷ []))
    ∷ []

-- `searchData` of functions_b.js
abbrev pub functions_b : List Entry
functions_b =
    (entry "notefinished_3a" "noteFinished:" (
      target "../interface_h_f_progress_tracker.html#aba06fdb74247bc38d96224e3de70911f"
        "HFProgressTracker"
      ∷ []))
    ∷ (entry "ns_5freturns_5fretained" "NS_RETURNS_RETAINED" (
        target "../interface_h_f_representer.html#a39e5e22b482218a8c38c384502ee1709" "HFRepresenter"
        ∷ []))
    ∷ (entry "numberofinstructions" "numberOfInstructions" (
        target "../interface_h_f_byte_array_edit_script.html#a17eba690f00007c17438213fe3fb7e8d"
          "HFByteArrayEditScript"
        ∷ []))
    ∷ (entry "numberofranges" "numberOfRanges" (
        target "../interface_h_f_index_set.html#aaa98eadcc8c05ad9a1c9ca56ddf98f82" "HFIndexSet"
        ∷ []))
    ∷ []

-- `searchData` of functions_c.js
abbrev pub functions_c : List Entry
functions_c =
    (entry "organizeandmergeranges_3a" "organizeAndMergeRanges:" (
      target "../interface_h_f_range_wrapper.html#a76755f6e5a387cd1e534170373b46ca2"
        "HFRangeWrapper"
      ∷ []))
    ∷ (entry "overlapsanyrange_3a" "overlapsAnyRange:" (
        target "../interface_h_f_range_set.html#acb8f98edfda88bfa024dfcd5a86c3e44" "HFRangeSet"
        ∷ []))
    ∷ (entry "overlapsanyrangeset_3a" "overlapsAnyRangeSet:" (
        target "../interface_h_f_range_set.html#a395968acee921fe349e17836c314bdea" "HFRangeSet"
        ∷ []))
    ∷ []

-- `searchData` of functions_d.js
abbrev pub functions_d : List Entry
functions_d =
    (entry "performlayout" "performLayout" (
      target "../interface_h_f_layout_representer.html#a4d2e3123689bdc1f6907fa75de4e4ab3"
        "HFLayoutRepresenter"
      ∷ []))
    ∷ (entry "prepareforchangeinfile_3afromwritingbytearray_3a"
        "prepareForChangeInFile:fromWritingByteArray:"
        (target "../interface_h_f_controller.html#a95d775e24dfb80cc0ca81e590d39ec62" "HFController"
          ∷ []))
    ∷ (entry "progresstracker_3adidchangeprogressto_3a" "progressTracker:didChangeProgressTo:" (
        target
          "../protocol_h_f_progress_tracker_delegate_01-p.html#aa7b73fc866dd37d63f7496c1df9e5153"
          "HFProgressTrackerDelegate -p"
        ∷ []))
    ∷ (entry "progresstrackerdidfinish_3a" "progressTrackerDidFinish:" (
        target
          "../protocol_h_f_progress_tracker_delegate_01-p.html#ae82fd08914986284af542d1abe96e466"
          "HFProgressTrackerDelegate -p"
        ∷ []))
    ∷ (entry "pulseselection" "pulseSelection" (
        target "../interface_h_f_controller.html#abf7e8cacb521993742fd88db9a9ef77e" "HFController"
        ∷ []))
    ∷ []
