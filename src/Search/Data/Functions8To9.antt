-- ===== src/Search/Data/Functions8To9.antt =====
-- The entries of docs/docs/search/functions_*.js.
use hex_fiend.Prelude.{List, [], ◌∷◌}
use hex_fiend.Search.Results.{Entry}
use hex_fiend.Search.Data.{entry, target}

-- `searchData` of functions_8.js
abbrev pub functions_8 : List Entry
functions_8 =
    (entry "incrementchangelockcounter" "incrementChangeLockCounter" (
      target "../interface_h_f_byte_array.html#a521cf2a05fdafc70b3b78c4f2bfa05ad" "HFByteArray"
      ∷ []))
    ∷ (entry "incrementgenerationorraiseiflockedforselector_3a"
        "incrementGenerationOrRaiseIfLockedForSelector:"
        (target "../interface_h_f_byte_array.html#ac3b8df15c725a674b382b8869f0311d6" "HFByteArray"
          ∷ []))
    ∷ (entry "indexofbytesequaltobytes_3ainrange_3asearchingforwards_3atrackingprogress_3a"
        "indexOfBytesEqualToBytes:inRange:searchingForwards:trackingProgress:"
        (target "../interface_h_f_byte_array.html#a494961e16def63c7e4bcf75a342d4f68" "HFByteArray"
          ∷ []))
    ∷ (entry "init" "init" (
        target "../interface_h_f_b_tree_byte_array.html#a34b1bf89e13fd3e8f075c80bfd9a17fc"
          "HFBTreeByteArray::init()"
        ∷ target "../interface_h_f_index_set.html#afce3690b48d74aa8bf00129fdf789a8f"
            "HFIndexSet::init()"
        ∷ []))
    ∷ (entry "initializeview" "initializeView" (
        target "../interface_h_f_representer.html#a786eb3e2db08cd99bd04aa737bf6073d" "HFRepresenter"
        ∷ []))
    ∷ (entry "initwithbytearray_3a" "initWithByteArray:" (
        target "../interface_h_f_byte_array.html#a2043a0207389099acef65b2e18ba44f7" "HFByteArray"
        ∷ []))
    ∷ (entry "initwithbyteslice_3a" "initWithByteSlice:" (
        target "../interface_h_f_byte_array.html#a0dbc26a7da687a778e0ae00d44592771" "HFByteArray"
        ∷ []))
    ∷ (entry "initwithdata_3a" "initWithData:" (
        target "../interface_h_f_full_memory_byte_slice.html#a1c95c554b3a9020f961ec762259a6871"
          "HFFullMemoryByteSlice::initWithData:()"
        ∷ target "../interface_h_f_shared_memory_byte_slice.html#af6788da79e8bad29a31b3759976ab9e8"
            "HFSharedMemoryByteSlice::initWithData:()"
        ∷ []))
    ∷ (entry "initwithdata_3aoffset_3alength_3a" "initWithData:offset:length:" (
        target "../interface_h_f_shared_memory_byte_slice.html#acc98c8b2a75dfe954c0935f3fd99d58c"
          "HFSharedMemoryByteSlice"
        ∷ []))
    ∷ (entry "initwithdifferencefromsource_3atodestination_3atrackingprogress_3a"
        "initWithDifferenceFromSource:toDestination:trackingProgress:"
        (target "../interface_h_f_byte_array_edit_script.html#a60b351d63cd609532425e551b5b9fd25"
            "HFByteArrayEditScript"
          ∷ []))
    ∷ (entry "initwithfile_3a" "initWithFile:" (
        target "../interface_h_f_file_byte_slice.html#a8458262ff44367042240dafaa5e2a58d"
          "HFFileByteSlice"
        ∷ []))
    ∷ (entry "initwithfile_3aoffset_3alength_3a" "initWithFile:offset:length:" (
        target "../interface_h_f_file_byte_slice.html#a060762f77982e3b8fab9900553151963"
          "HFFileByteSlice"
        ∷ []))
    ∷ (entry "initwithindexset_3a" "initWithIndexSet:" (
        target "../interface_h_f_index_set.html#ad8a08ee91637bde603aaa6f37b21920f" "HFIndexSet"
        ∷ []))
    ∷ (entry "initwithpath_3aerror_3a" "initWithPath:error:" (
        target "../interface_h_f_file_reference.html#a125eec19204e5fb457f312450978a233"
          "HFFileReference"
        ∷ []))
    ∷ (entry "initwithunshareddata_3a" "initWithUnsharedData:" (
        target "../interface_h_f_shared_memory_byte_slice.html#ad73924d8277aaf3d6f94af047483663e"
          "HFSharedMemoryByteSlice"
        ∷ []))
    ∷ (entry "initwithvalue_3a" "initWithValue:" (
        target "../interface_h_f_index_set.html#acbc4a763cd57d062ca66d21adc068ed6" "HFIndexSet"
        ∷ []))
    ∷ (entry "initwithvaluesinrange_3a" "initWithValuesInRange:" (
        target "../interface_h_f_index_set.html#af5ba8ea31724964ef28f9ba633810ee1" "HFIndexSet"
        ∷ []))
    ∷ (entry "initwritablewithpath_3aerror_3a" "initWritableWithPath:error:" (
        target "../interface_h_f_file_reference.html#a18fc517a2d1db86f69504b3d2b13ebe1"
          "HFFileReference"
        ∷ []))
    ∷ (entry "insertbytearray_3ainrange_3a" "insertByteArray:inRange:" (
        target "../interface_h_f_byte_array.html#a220e5b35b8ce20dfe8e2590e1e9c6f54" "HFByteArray"
        ∷ []))
    ∷ (entry "insertbytearray_3areplacingpreviousbytes_3aallowundocoalescing_3a"
        "insertByteArray:replacingPreviousBytes:allowUndoCoalescing:"
        (target "../interface_h_f_controller.html#aec28ad7b6be7d049532067ffd9ad4228" "HFController"
          ∷ []))
    ∷ (entry "insertbyteslice_3ainrange_3a" "insertByteSlice:inRange:" (
        target "../interface_h_f_byte_array.html#ac1b928d1536174f41a65c54caf754011" "HFByteArray"
        ∷ []))
    ∷ (entry "insertdata_3areplacingpreviousbytes_3aallowundocoalescing_3a"
        "insertData:replacingPreviousBytes:allowUndoCoalescing:"
        (target "../interface_h_f_controller.html#afd9ca8b71c745f26ffc9501a710fddd3" "HFController"
          ∷ []))
    ∷ (entry "instructionatindex_3a" "instructionAtIndex:" (
        target "../interface_h_f_byte_array_edit_script.html#ac30391d1eb2ebaf5f8f12db0375d06c1"
          "HFByteArrayEditScript"
        ∷ []))
    ∷ (entry "isempty" "isEmpty" (
        target "../interface_h_f_byte_range_attribute_array.html#a839ff6c9a57c1e463e8010b53707d9db"
          "HFByteRangeAttributeArray::isEmpty()"
        ∷ target "../interface_h_f_range_set.html#a24d83f497c1f5b387c9277b127892019"
            "HFRangeSet::isEmpty()"
        ∷ []))
    ∷ (entry "isequal_3a" "isEqual:" (
        target "../interface_h_f_file_reference.html#a2e13d8bd4cdf513b16b3667c2d21ba8a"
          "HFFileReference"
        ∷ []))
    ∷ (entry "isequaltonsindexset_3a" "isEqualToNSIndexSet:" (
        target "../interface_h_f_index_set.html#a59ab3727ba1001f15d9b9caea620f826" "HFIndexSet"
        ∷ []))
    ∷ (entry "isequaltorangeset_3a" "isEqualToRangeSet:" (
        target "../interface_h_f_range_set.html#a1de2147d6b7b6836c4086a5b83174c4c" "HFRangeSet"
        ∷ []))
    ∷ (entry "issourcedfromfile" "isSourcedFromFile" (
        target "../interface_h_f_byte_slice.html#ae09995093b464c0016dc1337dc5124df" "HFByteSlice"
        ∷ []))
    ∷ (entry "isviewloaded" "isViewLoaded" (
        target "../interface_h_f_representer.html#a04bfc131d81d7123c4fcdcc5327f94dd" "HFRepresenter"
        ∷ []))
    ∷ []

-- `searchData` of functions_9.js
abbrev pub functions_9 : List Entry
functions_9 =
    (entry "length" "length" (
      target "../interface_h_f_byte_array.html#ada079f9ec02547a52439f03d03c22491"
        "HFByteArray::length()"
      ∷ target "../interface_h_f_byte_slice.html#a145b439ab365eba8387f6f39c9558ad6"
          "HFByteSlice::length()"
      ∷ target "../interface_h_f_file_reference.html#ad3e560b662a0fa7437d6d4c3e3f58c86"
          "HFFileReference::length()"
      ∷ []))
    ∷ (entry "lineheight" "lineHeight" (
        target "../interface_h_f_controller.html#a75054d2f63731ef1a7929a2ea3b085d9" "HFController"
        ∷ []))
    ∷ (entry "locationofcharacteratbyteindex_3a" "locationOfCharacterAtByteIndex:" (
        target "../interface_h_f_text_representer.html#ac3d4e16d294fb3757583c25272062991"
          "HFTextRepresenter"
        ∷ []))
    ∷ []
