-- ===== src/Search/Data/All3To4.antt =====
-- The entries of docs/docs/search/all_*.js.
use hex_fiend.Prelude.{List, [], ◌∷◌}
use hex_fiend.Search.Results.{Entry}
use hex_fiend.Search.Data.{entry, target}

-- `searchData` of all_3.js
abbrev pub all_3 : List Entry
all_3 =
    (entry "centercontentsrange_3a" "centerContentsRange:" (
      target "../interface_h_f_controller.html#a1f6f628d0e41ad0f9d08fcb6e4859ff6" "HFController"
      ∷ []))
    ∷ (entry "changegenerationcount" "changeGenerationCount" (
        target "../interface_h_f_byte_array.html#afd62e6b3be8b05596494c5fbb7d7ea0f" "HFByteArray"
        ∷ []))
    ∷ (entry "changesarelocked" "changesAreLocked" (
        target "../interface_h_f_byte_array.html#a7b940818a34e5fc956cc05aacdd6e200" "HFByteArray"
        ∷ []))
    ∷ (entry "cleardependenciesonranges_3ainfile_3ahint_3a" "clearDependenciesOnRanges:inFile:hint:"
        (target
            "../category_h_f_byte_array_07_h_f_file_writing_08.html#a7ea74a3d609086f0ece0998ff96947e9"
            "HFByteArray(HFFileWriting)::clearDependenciesOnRanges:inFile:hint:()"
          ∷ target "../interface_h_f_byte_array.html#a7ea74a3d609086f0ece0998ff96947e9"
              "HFByteArray::clearDependenciesOnRanges:inFile:hint:()"
          ∷ []))
    ∷ (entry "clearundomanagerdependenciesonranges_3ainfile_3ahint_3a"
        "clearUndoManagerDependenciesOnRanges:inFile:hint:"
        (target "../interface_h_f_controller.html#a7a967d099a9a9dbed8c64cb1e0057c3b" "HFController"
          ∷ []))
    ∷ (entry "cliptorange_3a" "clipToRange:" (
        target "../interface_h_f_range_set.html#aa3a90c8ac76528d1f5663f7433c40286" "HFRangeSet"
        ∷ []))
    ∷ (entry "cliptorangeset_3a" "clipToRangeSet:" (
        target "../interface_h_f_range_set.html#a97c927d730e20dc44094c83282d14e78" "HFRangeSet"
        ∷ []))
    ∷ (entry "close" "close" (
        target "../interface_h_f_file_reference.html#a3ed63c568c05f301fcd4b56056eaa779"
          "HFFileReference"
        ∷ []))
    ∷ (entry "complementofrangeset_3ainrange_3a" "complementOfRangeSet:inRange:" (
        target "../interface_h_f_range_set.html#a0a652b7e64280be25b9190fcc96a6a07" "HFRangeSet"
        ∷ []))
    ∷ (entry "containsallrange_3a" "containsAllRange:" (
        target "../interface_h_f_range_set.html#aabb11a917ccf4a5116d807576acd185f" "HFRangeSet"
        ∷ []))
    ∷ (entry "containsallrangeset_3a" "containsAllRangeSet:" (
        target "../interface_h_f_range_set.html#a0a1d77b47914c8a02cf7d9d6a7ba65c5" "HFRangeSet"
        ∷ []))
    ∷ (entry "contentslength" "contentsLength" (
        target "../interface_h_f_controller.html#a63873f2b9439048b9ba1c406ec033b44" "HFController"
        ∷ []))
    ∷ (entry "continueselectionwithevent_3aforbyteindex_3a"
        "continueSelectionWithEvent:forByteIndex:"
        (target "../interface_h_f_controller.html#a8cca61e51681851e7214c6e83e5ea4a3" "HFController"
          ∷ []))
    ∷ (entry "controller" "controller" (
        target "../interface_h_f_text_view.html#a9d04a8ac893159d65498c1c0b0533d31"
          "HFTextView::controller()"
        ∷ target "../interface_h_f_representer.html#ac2c63f016e14f6de4bcb9312ceca4998"
            "HFRepresenter::controller()"
        ∷ target "../group__controller.html" "(Global Namespace)"
        ∷ []))
    ∷ (entry "controllerdidchange_3a" "controllerDidChange:" (
        target "../interface_h_f_representer.html#a23c079ab89921b0b54b3072a1c494107" "HFRepresenter"
        ∷ []))
    ∷ (entry "copybytes_3arange_3a" "copyBytes:range:" (
        target "../interface_h_f_byte_array.html#aac0168b2f3cedf0bd2fdf110e761ae1e"
          "HFByteArray::copyBytes:range:()"
        ∷ target "../interface_h_f_byte_slice.html#a3c95912198358d73730de8aa53b56c01"
            "HFByteSlice::copyBytes:range:()"
        ∷ target "../interface_h_f_controller.html#a192bb66065016f462de21621a1a9627d"
            "HFController::copyBytes:range:()"
        ∷ []))
    ∷ (entry "countofvalues" "countOfValues" (
        target "../interface_h_f_index_set.html#a097b231e179acb15ab02f6d38b7aa7a0" "HFIndexSet"
        ∷ []))
    ∷ (entry "countofvaluesinrange_3a" "countOfValuesInRange:" (
        target "../interface_h_f_index_set.html#a93bce4849051ec3c44ea2ae9445cccfa" "HFIndexSet"
        ∷ []))
    ∷ (entry "cyclelinenumberformat" "cycleLineNumberFormat" (
        target "../interface_h_f_line_counting_representer.html#aa303df41e6d3259a0125bf387a80ae3c"
          "HFLineCountingRepresenter"
        ∷ []))
    ∷ []

-- `searchData` of all_4.js
abbrev pub all_4 : List Entry
all_4 =
    (entry "data" "data" (
      target "../interface_h_f_text_view.html#a546bfc05654c23960a5b5ded1e35d447" "HFTextView" ∷ []))
    ∷ (entry "dataforrange_3a" "dataForRange:" (
        target "../interface_h_f_controller.html#a1cde2c2c601a6093183bf5d46744e41c" "HFController"
        ∷ []))
    ∷ (entry "decrementchangelockcounter" "decrementChangeLockCounter" (
        target "../interface_h_f_byte_array.html#a48d930eebf0df5ec921678feadc84388" "HFByteArray"
        ∷ []))
    ∷ (entry "defaultlayoutposition" "defaultLayoutPosition" (
        target "../interface_h_f_representer.html#a242a7e6f74430c85bcaf9b3fe01e8fbf" "HFRepresenter"
        ∷ []))
    ∷ (entry "delegate" "delegate" (
        target "../interface_h_f_progress_tracker.html#a2f4408dead46aae1142535b312ac381c"
          "HFProgressTracker::delegate()"
        ∷ target "../interface_h_f_text_view.html#a08baf8fb71edae71ab86675e5cef3173"
            "HFTextView::delegate()"
        ∷ []))
    ∷ (entry "deletebytesinrange_3a" "deleteBytesInRange:" (
        target "../interface_h_f_byte_array.html#a2d706967a198c9ce83927aac0b1a8e53" "HFByteArray"
        ∷ []))
    ∷ (entry "deletedirection_3a" "deleteDirection:" (
        target "../interface_h_f_controller.html#a3ab4cca9b78f0d7654a7a47a8f5d3348" "HFController"
        ∷ []))
    ∷ (entry "deleteselection" "deleteSelection" (
        target "../interface_h_f_controller.html#af00b1ffb077f9a69e4e81271e2326a65" "HFController"
        ∷ []))
    ∷ (entry "digitcount" "digitCount" (
        target "../interface_h_f_line_counting_representer.html#a0623bcf451815efb7424fed845986821"
          "HFLineCountingRepresenter"
        ∷ []))
    ∷ (entry "digitsrequiredtodisplaylinenumber_3ainformat_3a"
        "digitsRequiredToDisplayLineNumber:inFormat:"
        (target "../interface_h_f_line_counting_view.html#acee065f7ee03863795c88b85fc0214f9"
            "HFLineCountingView"
          ∷ []))
    ∷ (entry "displayedlinerange" "displayedLineRange" (
        target "../interface_h_f_controller.html#afc8537436d0b38a6763563296bd23a66" "HFController"
        ∷ []))
    ∷ (entry "dst" "dst" (
        target "../struct_h_f_edit_instruction__t.html#a09a85582cb7b56c837d84b7ef8a7fbec"
          "HFEditInstruction_t"
        ∷ []))
    ∷ []
