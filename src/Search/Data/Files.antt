-- ===== src/Search/Data/Files.antt =====
-- The entries of docs/docs/search/files_*.js.
use hex_fiend.Prelude.{List, [], ◌∷◌}
use hex_fiend.Search.Results.{Entry}
use hex_fiend.Search.Data.{entry, target}

-- `searchData` of files_0.js
abbrev pub files_0 : List Entry
files_0 =
    (entry "hexfiend_2eh" "HexFiend.h" (target "../_hex_fiend_8h.html" "" ∷ []))
    ∷ (entry "hfattributedbytearray_2eh" "HFAttributedByteArray.h"
        (target "../_h_f_attributed_byte_array_8h.html" "" ∷ []))
    ∷ (entry "hfbtreebytearray_2eh" "HFBTreeByteArray.h"
        (target "../_h_f_b_tree_byte_array_8h.html" "" ∷ []))
    ∷ (entry "hfbytearray_2eh" "HFByteArray.h" (target "../_h_f_byte_array_8h.html" "" ∷ []))
    ∷ (entry "hfbytearrayeditscript_2eh" "HFByteArrayEditScript.h"
        (target "../_h_f_byte_array_edit_script_8h.html" "" ∷ []))
    ∷ (entry "hfbyterangeattribute_2eh" "HFByteRangeAttribute.h"
        (target "../_h_f_byte_range_attribute_8h.html" "" ∷ []))
    ∷ (entry "hfbyterangeattributearray_2eh" "HFByteRangeAttributeArray.h"
        (target "../_h_f_byte_range_attribute_array_8h.html" "" ∷ []))
    ∷ (entry "hfbyteslice_2eh" "HFByteSlice.h" (target "../_h_f_byte_slice_8h.html" "" ∷ []))
    ∷ (entry "hfcancelbutton_2eh" "HFCancelButton.h"
        (target "../_h_f_cancel_button_8h.html" "" ∷ []))
    ∷ (entry "hfcontroller_2eh" "HFController.h" (target "../_h_f_controller_8h.html" "" ∷ []))
    ∷ (entry "hffilebyteslice_2eh" "HFFileByteSlice.h"
        (target "../_h_f_file_byte_slice_8h.html" "" ∷ []))
    ∷ (entry "hffilereference_2eh" "HFFileReference.h"
        (target "../_h_f_file_reference_8h.html" "" ∷ []))
    ∷ (entry "hffullmemorybytearray_2eh" "HFFullMemoryByteArray.h"
        (target "../_h_f_full_memory_byte_array_8h.html" "" ∷ []))
    ∷ (entry "hffullmemorybyteslice_2eh" "HFFullMemoryByteSlice.h"
        (target "../_h_f_full_memory_byte_slice_8h.html" "" ∷ []))
    ∷ (entry "hffunctions_2eh" "HFFunctions.h" (target "../_h_f_functions_8h.html" "" ∷ []))
    ∷ (entry "hfhextextrepresenter_2eh" "HFHexTextRepresenter.h"
        (target "../_h_f_hex_text_representer_8h.html" "" ∷ []))
    ∷ (entry "hfindexset_2eh" "HFIndexSet.h" (target "../_h_f_index_set_8h.html" "" ∷ []))
    ∷ (entry "hflayoutrepresenter_2eh" "HFLayoutRepresenter.h"
        (target "../_h_f_layout_representer_8h.html" "" ∷ []))
    ∷ (entry "hflinecountingrepresenter_2eh" "HFLineCountingRepresenter.h"
        (target "../_h_f_line_counting_representer_8h.html" "" ∷ []))
    ∷ (entry "hflinecountingview_2eh" "HFLineCountingView.h"
        (target "../_h_f_line_counting_view_8h.html" "" ∷ []))
    ∷ (entry "hfprogresstracker_2eh" "HFProgressTracker.h"
        (target "../_h_f_progress_tracker_8h.html" "" ∷ []))
    ∷ (entry "hfrepresenter_2eh" "HFRepresenter.h" (target "../_h_f_representer_8h.html" "" ∷ []))
    ∷ (entry "hfsharedmemorybyteslice_2eh" "HFSharedMemoryByteSlice.h"
        (target "../_h_f_shared_memory_byte_slice_8h.html" "" ∷ []))
    ∷ (entry "hfstatusbarrepresenter_2eh" "HFStatusBarRepresenter.h"
        (target "../_h_f_status_bar_representer_8h.html" "" ∷ []))
    ∷ (entry "hfstringencodingtextrepresenter_2eh" "HFStringEncodingTextRepresenter.h"
        (target "../_h_f_string_encoding_text_representer_8h.html" "" ∷ []))
    ∷ (entry "hftextfield_2eh" "HFTextField.h" (target "../_h_f_text_field_8h.html" "" ∷ []))
    ∷ (entry "hftextrepresenter_2eh" "HFTextRepresenter.h"
        (target "../_h_f_text_representer_8h.html" "" ∷ []))
    ∷ (entry "hftextview_2eh" "HFTextView.h" (target "../_h_f_text_view_8h.html" "" ∷ []))
    ∷ (entry "hftypes_2eh" "HFTypes.h" (target "../_h_f_types_8h.html" "" ∷ []))
    ∷ (entry "hfverticalscrollerrepresenter_2eh" "HFVerticalScrollerRepresenter.h"
        (target "../_h_f_vertical_scroller_representer_8h.html" "" ∷ []))
    ∷ []
