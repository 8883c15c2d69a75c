-- ===== src/Search/Data/Classes.antt =====
-- The entries of docs/docs/search/classes_*.js.
use hex_fiend.Prelude.{List, [], ◌∷◌}
use hex_fiend.Search.Results.{Entry}
use hex_fiend.Search.Data.{entry, target}

-- `searchData` of classes_0.js
abbrev pub classes_0 : List Entry
classes_0 =
    (entry "hfattributedbytearray" "HFAttributedByteArray"
      (target "../interface_h_f_attributed_byte_array.html" "" ∷ []))
    ∷ (entry "hfbtreebytearray" "HFBTreeByteArray"
        (target "../interface_h_f_b_tree_byte_array.html" "" ∷ []))
    ∷ (entry "hfbytearray" "HFByteArray" (target "../interface_h_f_byte_array.html" "" ∷ []))
    ∷ (entry "hfbytearray_28hfattributes_29" "HFByteArray(HFAttributes)"
        (target "../category_h_f_byte_array_07_h_f_attributes_08.html" "" ∷ []))
    ∷ (entry "hfbytearray_28hffilewriting_29" "HFByteArray(HFFileWriting)"
        (target "../category_h_f_byte_array_07_h_f_file_writing_08.html" "" ∷ []))
    ∷ (entry "hfbytearrayeditscript" "HFByteArrayEditScript"
        (target "../interface_h_f_byte_array_edit_script.html" "" ∷ []))
    ∷ (entry "hfbyterangeattributearray" "HFByteRangeAttributeArray"
        (target "../interface_h_f_byte_range_attribute_array.html" "" ∷ []))
    ∷ (entry "hfbyteslice" "HFByteSlice" (target "../interface_h_f_byte_slice.html" "" ∷ []))
    ∷ (entry "hfbyteslice_28hfattributes_29" "HFByteSlice(HFAttributes)"
        (target "../category_h_f_byte_slice_07_h_f_attributes_08.html" "" ∷ []))
    ∷ (entry "hfcancelbutton" "HFCancelButton"
        (target "../interface_h_f_cancel_button.html" "" ∷ []))
    ∷ (entry "hfconcretefilereference" "HFConcreteFileReference"
        (target "../interface_h_f_concrete_file_reference.html" "" ∷ []))
    ∷ (entry "hfcontroller" "HFController" (target "../interface_h_f_controller.html" "" ∷ []))
    ∷ (entry "hfeditinstruction_5ft" "HFEditInstruction_t"
        (target "../struct_h_f_edit_instruction__t.html" "" ∷ []))
    ∷ (entry "hffilebyteslice" "HFFileByteSlice"
        (target "../interface_h_f_file_byte_slice.html" "" ∷ []))
    ∷ (entry "hffilereference" "HFFileReference"
        (target "../interface_h_f_file_reference.html" "" ∷ []))
    ∷ (entry "hffprange" "HFFPRange" (target "../struct_h_f_f_p_range.html" "" ∷ []))
    ∷ (entry "hffullmemorybytearray" "HFFullMemoryByteArray"
        (target "../interface_h_f_full_memory_byte_array.html" "" ∷ []))
    ∷ (entry "hffullmemorybyteslice" "HFFullMemoryByteSlice"
        (target "../interface_h_f_full_memory_byte_slice.html" "" ∷ []))
    ∷ (entry "hfhextextrepresenter" "HFHexTextRepresenter"
        (target "../interface_h_f_hex_text_representer.html" "" ∷ []))
    ∷ (entry "hfindexset" "HFIndexSet" (target "../interface_h_f_index_set.html" "" ∷ []))
    ∷ (entry "hflayoutrepresenter" "HFLayoutRepresenter"
        (target "../interface_h_f_layout_representer.html" "" ∷ []))
    ∷ (entry "hflinecountingrepresenter" "HFLineCountingRepresenter"
        (target "../interface_h_f_line_counting_representer.html" "" ∷ []))
    ∷ (entry "hflinecountingview" "HFLineCountingView"
        (target "../interface_h_f_line_counting_view.html" "" ∷ []))
    ∷ (entry "hfmutableindexset" "HFMutableIndexSet"
        (target "../interface_h_f_mutable_index_set.html" "" ∷ []))
    ∷ (entry "hfprogresstracker" "HFProgressTracker"
        (target "../interface_h_f_progress_tracker.html" "" ∷ []))
    ∷ (entry "hfprogresstrackerdelegate_20_2dp" "HFProgressTrackerDelegate -p"
        (target "../protocol_h_f_progress_tracker_delegate_01-p.html" "" ∷ []))
    ∷ (entry "hfprogresstrackerdelegate_2dp" "HFProgressTrackerDelegate-p"
        (target "../protocol_h_f_progress_tracker_delegate-p.html" "" ∷ []))
    ∷ (entry "hfrange" "HFRange" (target "../struct_h_f_range.html" "" ∷ []))
    ∷ (entry "hfrangeset" "HFRangeSet" (target "../interface_h_f_range_set.html" "" ∷ []))
    ∷ (entry "hfrangewrapper" "HFRangeWrapper"
        (target "../interface_h_f_range_wrapper.html" "" ∷ []))
    ∷ (entry "hfrepresenter" "HFRepresenter" (target "../interface_h_f_representer.html" "" ∷ []))
    ∷ (entry "hfsharedmemorybyteslice" "HFSharedMemoryByteSlice"
        (target "../interface_h_f_shared_memory_byte_slice.html" "" ∷ []))
    ∷ (entry "hfstatusbarrepresenter" "HFStatusBarRepresenter"
        (target "../interface_h_f_status_bar_representer.html" "" ∷ []))
    ∷ (entry "hfstringencodingtextrepresenter" "HFStringEncodingTextRepresenter"
        (target "../interface_h_f_string_encoding_text_representer.html" "" ∷ []))
    ∷ (entry "hftextfield" "HFTextField" (target "../interface_h_f_text_field.html" "" ∷ []))
    ∷ (entry "hftextrepresenter" "HFTextRepresenter"
        (target "../interface_h_f_text_representer.html" "" ∷ []))
    ∷ (entry "hftextview" "HFTextView" (target "../interface_h_f_text_view.html" "" ∷ []))
    ∷ (entry "hftextviewdelegate_20_2dp" "HFTextViewDelegate -p"
        (target "../protocol_h_f_text_view_delegate_01-p.html" "" ∷ []))
    ∷ (entry "hftextviewdelegate_2dp" "HFTextViewDelegate-p"
        (target "../protocol_h_f_text_view_delegate-p.html" "" ∷ []))
    ∷ (entry "hfverticalscrollerrepresenter" "HFVerticalScrollerRepresenter"
        (target "../interface_h_f_vertical_scroller_representer.html" "" ∷ []))
    ∷ []
