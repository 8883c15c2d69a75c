-- ===== src/Search/Data/All8.antt =====
-- The entries of docs/docs/search/all_*.js.
use hex_fiend.Prelude.{List, [], ◌∷◌}
use hex_fiend.Search.Results.{Entry}
use hex_fiend.Search.Data.{entry, target}

-- `searchData` of all_8.js
abbrev pub all_8 : List Entry
all_8 =
    (entry "hexfiend_2eh" "HexFiend.h" (target "../_hex_fiend_8h.html" "" ∷ []))
    ∷ (entry "hextextview_3adidchangeproperties_3a" "hexTextView:didChangeProperties:" (
        target "../protocol_h_f_text_view_delegate_01-p.html#a4e5b12ec232d718dc91b703623732cb5"
          "HFTextViewDelegate -p"
        ∷ []))
    ∷ (entry "hfasciidatastringtype" "HFASCIIDataStringType" (
        target
          "../_h_f_byte_array_8h.html#a1af2563dbaa452271bb8d8967f2443beaac306eadcbdc57022d9280aa1a808d81"
          "HFByteArray.h"
        ∷ []))
    ∷ (entry "hfattributedbytearray" "HFAttributedByteArray"
        (target "../interface_h_f_attributed_byte_array.html" "" ∷ []))
    ∷ (entry "hfattributedbytearray_2eh" "HFAttributedByteArray.h"
        (target "../_h_f_attributed_byte_array_8h.html" "" ∷ []))
    ∷ (entry "hfbookmarkattributefrombookmark" "HFBookmarkAttributeFromBookmark" (
        target "../_h_f_byte_range_attribute_8h.html#a79f7140206660d88dcdcb64939b5362a"
          "HFByteRangeAttribute.h"
        ∷ []))
    ∷ (entry "hfbookmarkfrombookmarkattribute" "HFBookmarkFromBookmarkAttribute" (
        target "../_h_f_byte_range_attribute_8h.html#ad6571422e49054f418be984eb2eee1b4"
          "HFByteRangeAttribute.h"
        ∷ []))
    ∷ (entry "hfbtreebytearray" "HFBTreeByteArray"
        (target "../interface_h_f_b_tree_byte_array.html" "" ∷ []))
    ∷ (entry "hfbtreebytearray_2eh" "HFBTreeByteArray.h"
        (target "../_h_f_b_tree_byte_array_8h.html" "" ∷ []))
    ∷ (entry "hfbytearray" "HFByteArray" (target "../interface_h_f_byte_array.html" "" ∷ []))
    ∷ (entry "hfbytearray_28hfattributes_29" "HFByteArray(HFAttributes)"
        (target "../category_h_f_byte_array_07_h_f_attributes_08.html" "" ∷ []))
    ∷ (entry "hfbytearray_28hffilewriting_29" "HFByteArray(HFFileWriting)"
        (target "../category_h_f_byte_array_07_h_f_file_writing_08.html" "" ∷ []))
    ∷ (entry "hfbytearray_2eh" "HFByteArray.h" (target "../_h_f_byte_array_8h.html" "" ∷ []))
    ∷ (entry "hfbytearraydatastringtype" "HFByteArrayDataStringType" (
        target "../_h_f_byte_array_8h.html#a1af2563dbaa452271bb8d8967f2443be"
          "HFByteArrayDataStringType():&#160;HFByteArray.h"
        ∷ target "../_h_f_byte_array_8h.html#a2cd0cb024d2d0921ce5b5969370668e9"
            "HFByteArrayDataStringType():&#160;HFByteArray.h"
        ∷ []))
    ∷ (entry "hfbytearrayeditscript" "HFByteArrayEditScript"
        (target "../interface_h_f_byte_array_edit_script.html" "" ∷ []))
    ∷ (entry "hfbytearrayeditscript_2eh" "HFByteArrayEditScript.h"
        (target "../_h_f_byte_array_edit_script_8h.html" "" ∷ []))
    ∷ (entry "hfbyterangeattribute_2eh" "HFByteRangeAttribute.h"
        (target "../_h_f_byte_range_attribute_8h.html" "" ∷ []))
    ∷ (entry "hfbyterangeattributearray" "HFByteRangeAttributeArray"
        (target "../interface_h_f_byte_range_attribute_array.html" "" ∷ []))
    ∷ (entry "hfbyterangeattributearray_2eh" "HFByteRangeAttributeArray.h"
        (target "../_h_f_byte_range_attribute_array_8h.html" "" ∷ []))
    ∷ (entry "hfbyteslice" "HFByteSlice" (target "../interface_h_f_byte_slice.html" "" ∷ []))
    ∷ (entry "hfbyteslice_28hfattributes_29" "HFByteSlice(HFAttributes)"
        (target "../category_h_f_byte_slice_07_h_f_attributes_08.html" "" ∷ []))
    ∷ (entry "hfbyteslice_2eh" "HFByteSlice.h" (target "../_h_f_byte_slice_8h.html" "" ∷ []))
    ∷ (entry "hfcancelbutton" "HFCancelButton"
        (target "../interface_h_f_cancel_button.html" "" ∷ []))
    ∷ (entry "hfcancelbutton_2eh" "HFCancelButton.h"
        (target "../_h_f_cancel_button_8h.html" "" ∷ []))
    ∷ (entry "hfchangeinfilebytearraykey" "HFChangeInFileByteArrayKey" (
        target "../_h_f_controller_8h.html#adb81445227b9084594a08a8e05f27504" "HFController.h"
        ∷ []))
    ∷ (entry "hfchangeinfilehintkey" "HFChangeInFileHintKey" (
        target "../_h_f_controller_8h.html#a07dd60fa4f880542cffba01cce405f3e" "HFController.h"
        ∷ []))
    ∷ (entry "hfchangeinfilemodifiedrangeskey" "HFChangeInFileModifiedRangesKey" (
        target "../_h_f_controller_8h.html#a6dcb2a4fd18fa9f5a22fedfde43787a8" "HFController.h"
        ∷ []))
    ∷ (entry "hfchangeinfileshouldcancelkey" "HFChangeInFileShouldCancelKey" (
        target "../_h_f_controller_8h.html#ab5507b93db185e2608ddc1a06f359d30" "HFController.h"
        ∷ []))
    ∷ (entry "hfconcretefilereference" "HFConcreteFileReference"
        (target "../interface_h_f_concrete_file_reference.html" "" ∷ []))
    ∷ (entry "hfcontroller" "HFController" (target "../interface_h_f_controller.html" "" ∷ []))
    ∷ (entry "hfcontroller_2eh" "HFController.h" (target "../_h_f_controller_8h.html" "" ∷ []))
    ∷ (entry "hfcontrollerantialias" "HFControllerAntialias" (
        target
          "../_h_f_controller_8h.html#adfb5b0d9c70a4b65379361b34ba1aea5af8dd38d02092c208ed2b1131e14a17d3"
          "HFController.h"
        ∷ []))
    ∷ (entry "hfcontrollerbookmarks" "HFControllerBookmarks" (
        target
          "../_h_f_controller_8h.html#adfb5b0d9c70a4b65379361b34ba1aea5aa577bf1aab652c8e7c10a6474539209c"
          "HFController.h"
        ∷ []))
    ∷ (entry "hfcontrollerbytegranularity" "HFControllerByteGranularity" (
        target
          "../_h_f_controller_8h.html#adfb5b0d9c70a4b65379361b34ba1aea5a1485006beedc3e7f130b8728076d8deb"
          "HFController.h"
        ∷ []))
    ∷ (entry "hfcontrollerbyterangeattributes" "HFControllerByteRangeAttributes" (
        target
          "../_h_f_controller_8h.html#adfb5b0d9c70a4b65379361b34ba1aea5a131ccd5f4c7910f45c3eb65211dc0d77"
          "HFController.h"
        ∷ []))
    ∷ (entry "hfcontrollerbytespercolumn" "HFControllerBytesPerColumn" (
        target
          "../_h_f_controller_8h.html#adfb5b0d9c70a4b65379361b34ba1aea5a1e162c7c8f5e5524f1c2af1b44c1319e"
          "HFController.h"
        ∷ []))
    ∷ (entry "hfcontrollerbytesperline" "HFControllerBytesPerLine" (
        target
          "../_h_f_controller_8h.html#adfb5b0d9c70a4b65379361b34ba1aea5ac6a933c42707198ae12cdf7fb34663e5"
          "HFController.h"
        ∷ []))
    ∷ (entry "hfcontrollerchangedpropertieskey" "HFControllerChangedPropertiesKey" (
        target "../_h_f_controller_8h.html#a8cd50e8b1391a840afaddd61bd8ccc3a" "HFController.h"
        ∷ []))
    ∷ (entry "hfcontrollercolorbytes" "HFControllerColorBytes" (
        target
          "../_h_f_controller_8h.html#adfb5b0d9c70a4b65379361b34ba1aea5a34679cdab27e96e3624ef98ef13c1f55"
          "HFController.h"
        ∷ []))
    ∷ (entry "hfcontrollercontentlength" "HFControllerContentLength" (
        target
          "../_h_f_controller_8h.html#adfb5b0d9c70a4b65379361b34ba1aea5a2be2b9e1f36c438e34bbfe14e91f82df"
          "HFController.h"
        ∷ []))
    ∷ (entry "hfcontrollercontentvalue" "HFControllerContentValue" (
        target
          "../_h_f_controller_8h.html#adfb5b0d9c70a4b65379361b34ba1aea5a3676fd54c466a746e9ffe4519df7b21c"
          "HFController.h"
        ∷ []))
    ∷ (entry "hfcontrollerdidchangepropertiesnotification"
        "HFControllerDidChangePropertiesNotification"
        (target "../_h_f_controller_8h.html#ab8e0fdcc4ac0756fc6afbf90051b0693" "HFController.h"
          ∷ []))
    ∷ (entry "hfcontrollerdirectionleft" "HFControllerDirectionLeft" (
        target
          "../_h_f_controller_8h.html#a375dde7ced2bf775954f9e950eec3addaf3e7675621117f7794874179cf1f96e3"
          "HFController.h"
        ∷ []))
    ∷ (entry "hfcontrollerdirectionright" "HFControllerDirectionRight" (
        target
          "../_h_f_controller_8h.html#a375dde7ced2bf775954f9e950eec3adda27c6d9161296830b1bbcd144d701f3c8"
          "HFController.h"
        ∷ []))
    ∷ (entry "hfcontrollerdiscardselection" "HFControllerDiscardSelection" (
        target
          "../_h_f_controller_8h.html#a5439328d873d33dd7baf4622c28a513fa51e9f20729849cbebe8fea0aed2beb48"
          "HFController.h"
        ∷ []))
    ∷ (entry "hfcontrollerdisplayedlinerange" "HFControllerDisplayedLineRange" (
        target
          "../_h_f_controller_8h.html#adfb5b0d9c70a4b65379361b34ba1aea5ad03763452ac1b2798e2c80578ebff10d"
          "HFController.h"
        ∷ []))
    ∷ (entry "hfcontrollereditable" "HFControllerEditable" (
        target
          "../_h_f_controller_8h.html#adfb5b0d9c70a4b65379361b34ba1aea5a509b03acdc13db215f98c87a8b1af1bd"
          "HFController.h"
        ∷ []))
    ∷ (entry "hfcontrollerextendselection" "HFControllerExtendSelection" (
        target
          "../_h_f_controller_8h.html#a5439328d873d33dd7baf4622c28a513fa435bd452118e8dcebb19832e00c48482"
          "HFController.h"
        ∷ []))
    ∷ (entry "hfcontrollerfont" "HFControllerFont" (
        target
          "../_h_f_controller_8h.html#adfb5b0d9c70a4b65379361b34ba1aea5a407c21e32cc8c4d865c50aadb84c6c0c"
          "HFController.h"
        ∷ []))
    ∷ (entry "hfcontrollerhidenullbytes" "HFControllerHideNullBytes" (
        target
          "../_h_f_controller_8h.html#adfb5b0d9c70a4b65379361b34ba1aea5a6302fbb9baa3c333f167fb05d4500960"
          "HFController.h"
        ∷ []))
    ∷ (entry "hfcontrollerlineheight" "HFControllerLineHeight" (
        target
          "../_h_f_controller_8h.html#adfb5b0d9c70a4b65379361b34ba1aea5a68bafa34a750cd43ba9b9ab0a5d9a4b8"
          "HFController.h"
        ∷ []))
    ∷ (entry "hfcontrollermovementbyte" "HFControllerMovementByte" (
        target
          "../_h_f_controller_8h.html#af7604c610ec5c06d5e9f65ae96fb6aa4ab8e3972c4da6d2e0a520cecf386ee537"
          "HFController.h"
        ∷ []))
    ∷ (entry "hfcontrollermovementcolumn" "HFControllerMovementColumn" (
        target
          "../_h_f_controller_8h.html#af7604c610ec5c06d5e9f65ae96fb6aa4a76724b4804de19986983f675d1f6df89"
          "HFController.h"
        ∷ []))
    ∷ (entry "hfcontrollermovementdirection" "HFControllerMovementDirection" (
        target "../_h_f_controller_8h.html#a375dde7ced2bf775954f9e950eec3add"
          "HFControllerMovementDirection():&#160;HFController.h"
        ∷ target "../_h_f_controller_8h.html#a00d4d8e43f4905fcf60d08f366bb712d"
            "HFControllerMovementDirection():&#160;HFController.h"
        ∷ []))
    ∷ (entry "hfcontrollermovementdocument" "HFControllerMovementDocument" (
        target
          "../_h_f_controller_8h.html#af7604c610ec5c06d5e9f65ae96fb6aa4a615c20d42ac369282c7d995613b91536"
          "HFController.h"
        ∷ []))
    ∷ (entry "hfcontrollermovementgranularity" "HFControllerMovementGranularity" (
        target "../_h_f_controller_8h.html#af7604c610ec5c06d5e9f65ae96fb6aa4"
          "HFControllerMovementGranularity():&#160;HFController.h"
        ∷ target "../_h_f_controller_8h.html#a85567732295808b437a449000cb99aa4"
            "HFControllerMovementGranularity():&#160;HFController.h"
        ∷ []))
    ∷ (entry "hfcontrollermovementline" "HFControllerMovementLine" (
        target
          "../_h_f_controller_8h.html#af7604c610ec5c06d5e9f65ae96fb6aa4adb40ee0fea8b00d86257e1a7681ec02f"
          "HFController.h"
        ∷ []))
    ∷ (entry "hfcontrollermovementpage" "HFControllerMovementPage" (
        target
          "../_h_f_controller_8h.html#af7604c610ec5c06d5e9f65ae96fb6aa4af1d01fcf2b0d6b71c6c402a94745c6fe"
          "HFController.h"
        ∷ []))
    ∷ (entry "hfcontrollerpropertybits" "HFControllerPropertyBits" (
        target "../_h_f_controller_8h.html#adfb5b0d9c70a4b65379361b34ba1aea5"
          "HFControllerPropertyBits():&#160;HFController.h"
        ∷ target "../_h_f_controller_8h.html#ae473352f77f187f538750e531d32be11"
            "HFControllerPropertyBits():&#160;HFController.h"
        ∷ []))
    ∷ (entry "hfcontrollerselectedranges" "HFControllerSelectedRanges" (
        target
          "../_h_f_controller_8h.html#adfb5b0d9c70a4b65379361b34ba1aea5a3c11357390226e8afd1d25f4205f7da0"
          "HFController.h"
        ∷ []))
    ∷ (entry "hfcontrollerselectionpulseamount" "HFControllerSelectionPulseAmount" (
        target
          "../_h_f_controller_8h.html#adfb5b0d9c70a4b65379361b34ba1aea5af9018582c51e2b8473f61c0d67a25170"
          "HFController.h"
        ∷ []))
    ∷ (entry "hfcontrollerselectiontransformation" "HFControllerSelectionTransformation" (
        target "../_h_f_controller_8h.html#a5439328d873d33dd7baf4622c28a513f"
          "HFControllerSelectionTransformation():&#160;HFController.h"
        ∷ target "../_h_f_controller_8h.html#ad0384e8e2f0210f793c5486e053a1d20"
            "HFControllerSelectionTransformation():&#160;HFController.h"
        ∷ []))
    ∷ (entry "hfcontrollershiftselection" "HFControllerShiftSelection" (
        target
          "../_h_f_controller_8h.html#a5439328d873d33dd7baf4622c28a513fa2d1a96664f11e58da108f6d1f8daef50"
          "HFController.h"
        ∷ []))
    ∷ (entry "hfcontrollershowcallouts" "HFControllerShowCallouts" (
        target
          "../_h_f_controller_8h.html#adfb5b0d9c70a4b65379361b34ba1aea5ab0997589f8558b3e912fb66dd5adcb59"
          "HFController.h"
        ∷ []))
    ∷ (entry "hfcontrollerviewsizeratios" "HFControllerViewSizeRatios" (
        target
          "../_h_f_controller_8h.html#adfb5b0d9c70a4b65379361b34ba1aea5a694100c5b77fec8f1184d19f7ede7d2f"
          "HFController.h"
        ∷ []))
    ∷ (entry "hfdefault_5ffont" "HFDEFAULT_FONT"
        (target "../_h_f_functions_8h.html#ab08435c6a01cfe5cd77158388f22167f" "HFFunctions.h" ∷ []))
    ∷ (entry "hfdefault_5ffontsize" "HFDEFAULT_FONTSIZE"
        (target "../_h_f_functions_8h.html#afe1c300d17bd4eee18b785b5a57296ac" "HFFunctions.h" ∷ []))
    ∷ (entry "hfdescribebytecount" "HFDescribeByteCount"
        (target "../_h_f_functions_8h.html#a559dddb38ff414cfacf5021529f3c18c" "HFFunctions.h" ∷ []))
    ∷ (entry "hfdrawshadow" "HFDrawShadow"
        (target "../_h_f_functions_8h.html#aa1e2340e72af073b5120505b4b0a291b" "HFFunctions.h" ∷ []))
    ∷ (entry "hfeditinstruction_5ft" "HFEditInstruction_t"
        (target "../struct_h_f_edit_instruction__t.html" "" ∷ []))
    ∷ (entry "hfeditmode" "HFEditMode" (
        target "../_h_f_controller_8h.html#a699a6c9cf2166c36da490e29d6ed2473"
          "HFEditMode():&#160;HFController.h"
        ∷ target "../_h_f_controller_8h.html#ad13ffd272edcee009bd94cac69614ff7"
            "HFEditMode():&#160;HFController.h"
        ∷ []))
    ∷ (entry "hffilebyteslice" "HFFileByteSlice"
        (target "../interface_h_f_file_byte_slice.html" "" ∷ []))
    ∷ (entry "hffilebyteslice_2eh" "HFFileByteSlice.h"
        (target "../_h_f_file_byte_slice_8h.html" "" ∷ []))
    ∷ (entry "hffilereference" "HFFileReference"
        (target "../interface_h_f_file_reference.html" "" ∷ []))
    ∷ (entry "hffilereference_2eh" "HFFileReference.h"
        (target "../_h_f_file_reference_8h.html" "" ∷ []))
    ∷ (entry "hffprange" "HFFPRange" (target "../struct_h_f_f_p_range.html" "" ∷ []))
    ∷ (entry "hffullmemorybytearray" "HFFullMemoryByteArray"
        (target "../interface_h_f_full_memory_byte_array.html" "" ∷ []))
    ∷ (entry "hffullmemorybytearray_2eh" "HFFullMemoryByteArray.h"
        (target "../_h_f_full_memory_byte_array_8h.html" "" ∷ []))
    ∷ (entry "hffullmemorybyteslice" "HFFullMemoryByteSlice"
        (target "../interface_h_f_full_memory_byte_slice.html" "" ∷ []))
    ∷ (entry "hffullmemorybyteslice_2eh" "HFFullMemoryByteSlice.h"
        (target "../_h_f_full_memory_byte_slice_8h.html" "" ∷ []))
    ∷ (entry "hffunctions_2eh" "HFFunctions.h" (target "../_h_f_functions_8h.html" "" ∷ []))
    ∷ (entry "hfhexdatastringtype" "HFHexDataStringType" (
        target
          "../_h_f_byte_array_8h.html#a1af2563dbaa452271bb8d8967f2443bea19cf011438457f5556468df6a8c40721"
          "HFByteArray.h"
        ∷ []))
    ∷ (entry "hfhextextrepresenter" "HFHexTextRepresenter"
        (target "../interface_h_f_hex_text_representer.html" "" ∷ []))
    ∷ (entry "hfhextextrepresenter_2eh" "HFHexTextRepresenter.h"
        (target "../_h_f_hex_text_representer_8h.html" "" ∷ []))
    ∷ (entry "hfindexset" "HFIndexSet" (target "../interface_h_f_index_set.html" "" ∷ []))
    ∷ (entry "hfindexset_2eh" "HFIndexSet.h" (target "../_h_f_index_set_8h.html" "" ∷ []))
    ∷ (entry "hfinsertmode" "HFInsertMode" (
        target
          "../_h_f_controller_8h.html#a699a6c9cf2166c36da490e29d6ed2473a6d9fcceef66f969985489a83bcd7bd5a"
          "HFController.h"
        ∷ []))
    ∷ (entry "hflayoutrepresenter" "HFLayoutRepresenter"
        (target "../interface_h_f_layout_representer.html" "" ∷ []))
    ∷ (entry "hflayoutrepresenter_2eh" "HFLayoutRepresenter.h"
        (target "../_h_f_layout_representer_8h.html" "" ∷ []))
    ∷ (entry "hflinecountingrepresenter" "HFLineCountingRepresenter"
        (target "../interface_h_f_line_counting_representer.html" "" ∷ []))
    ∷ (entry "hflinecountingrepresenter_2eh" "HFLineCountingRepresenter.h"
        (target "../_h_f_line_counting_representer_8h.html" "" ∷ []))
    ∷ (entry "hflinecountingrepresenterminimumviewwidthchanged"
        "HFLineCountingRepresenterMinimumViewWidthChanged"
        (target "../_h_f_line_counting_representer_8h.html#af93e2e1eedb73ea1f923b3db0cb7f193"
            "HFLineCountingRepresenter.h"
          ∷ []))
    ∷ (entry "hflinecountingview" "HFLineCountingView"
        (target "../interface_h_f_line_counting_view.html" "" ∷ []))
    ∷ (entry "hflinecountingview_2eh" "HFLineCountingView.h"
        (target "../_h_f_line_counting_view_8h.html" "" ∷ []))
    ∷ (entry "hflinenumberformat" "HFLineNumberFormat" (
        target "../_h_f_line_counting_representer_8h.html#ab910967284ab6c817dbd44531c4a3a2e"
          "HFLineNumberFormat():&#160;HFLineCountingRepresenter.h"
        ∷ target "../_h_f_line_counting_representer_8h.html#a8fce276601dd1b62bdb59eba373f56e5"
            "HFLineNumberFormat():&#160;HFLineCountingRepresenter.h"
        ∷ []))
    ∷ (entry "hflinenumberformatdecimal" "HFLineNumberFormatDecimal" (
        target
          "../_h_f_line_counting_representer_8h.html#ab910967284ab6c817dbd44531c4a3a2eae551fea869219d6fb297f904492f5ccc"
          "HFLineCountingRepresenter.h"
        ∷ []))
    ∷ (entry "hflinenumberformathexadecimal" "HFLineNumberFormatHexadecimal" (
        target
          "../_h_f_line_counting_representer_8h.html#ab910967284ab6c817dbd44531c4a3a2ea8acffc17c8abb8fac3f2327c2e5ffe66"
          "HFLineCountingRepresenter.h"
        ∷ []))
    ∷ (entry "hflinenumberformatmaximum" "HFLineNumberFormatMAXIMUM" (
        target
          "../_h_f_line_counting_representer_8h.html#ab910967284ab6c817dbd44531c4a3a2ea672bd987a849e3d8b138cd1ad23c1eca"
          "HFLineCountingRepresenter.h"
        ∷ []))
    ∷ (entry "hfmutableindexset" "HFMutableIndexSet"
        (target "../interface_h_f_mutable_index_set.html" "" ∷ []))
    ∷ (entry "hfoverwritemode" "HFOverwriteMode" (
        target
          "../_h_f_controller_8h.html#a699a6c9cf2166c36da490e29d6ed2473a57713c6a4e1414210225d06760baf53e"
          "HFController.h"
        ∷ []))
    ∷ (entry "hfprepareforchangeinfilenotification" "HFPrepareForChangeInFileNotification" (
        target "../_h_f_controller_8h.html#ad9e43b0e840921ce3faae4eba1de5168" "HFController.h"
        ∷ []))
    ∷ (entry "hfprogresstracker" "HFProgressTracker"
        (target "../interface_h_f_progress_tracker.html" "" ∷ []))
    ∷ (entry "hfprogresstracker_2eh" "HFProgressTracker.h"
        (target "../_h_f_progress_tracker_8h.html" "" ∷ []))
    ∷ (entry "hfprogresstrackerdelegate_20_2dp" "HFProgressTrackerDelegate -p"
        (target "../protocol_h_f_progress_tracker_delegate_01-p.html" "" ∷ []))
    ∷ (entry "hfprogresstrackerdelegate_2dp" "HFProgressTrackerDelegate-p"
        (target "../protocol_h_f_progress_tracker_delegate-p.html" "" ∷ []))
    ∷ (entry "hfrange" "HFRange" (
        target "../struct_h_f_range.html" "HFRange"
        ∷ target "../interface_h_f_range_wrapper.html#a2c0169bf7e032062da362aa382a29c77"
            "HFRangeWrapper::HFRange()"
        ∷ []))
    ∷ (entry "hfrangeset" "HFRangeSet" (target "../interface_h_f_range_set.html" "" ∷ []))
    ∷ (entry "hfrangewrapper" "HFRangeWrapper"
        (target "../interface_h_f_range_wrapper.html" "" ∷ []))
    ∷ (entry "hfreadonlymode" "HFReadOnlyMode" (
        target
          "../_h_f_controller_8h.html#a699a6c9cf2166c36da490e29d6ed2473a05a305e1472ec85755556a80e9a40c41"
          "HFController.h"
        ∷ []))
    ∷ (entry "hfregisterviewforwindowappearancechanges" "HFRegisterViewForWindowAppearanceChanges"
        (target "../_h_f_functions_8h.html#aab18db79475cdbd6490f33a970a64d71" "HFFunctions.h" ∷ []))
    ∷ (entry "hfrepresenter" "HFRepresenter" (target "../interface_h_f_representer.html" "" ∷ []))
    ∷ (entry "hfrepresenter_2eh" "HFRepresenter.h" (target "../_h_f_representer_8h.html" "" ∷ []))
    ∷ (entry "hfsharedmemorybyteslice" "HFSharedMemoryByteSlice"
        (target "../interface_h_f_shared_memory_byte_slice.html" "" ∷ []))
    ∷ (entry "hfsharedmemorybyteslice_2eh" "HFSharedMemoryByteSlice.h"
        (target "../_h_f_shared_memory_byte_slice_8h.html" "" ∷ []))
    ∷ (entry "hfstarttiming" "HFStartTiming"
        (target "../_h_f_functions_8h.html#a3bc1e8785697a055602a93858f081758" "HFFunctions.h" ∷ []))
    ∷ (entry "hfstatusbarmode" "HFStatusBarMode" (
        target "../_h_f_status_bar_representer_8h.html#a448ec6194653637a96cae094314c667a"
          "HFStatusBarMode():&#160;HFStatusBarRepresenter.h"
        ∷ target "../_h_f_status_bar_representer_8h.html#a0c4a61ddaf9e04b472ea096efe44566e"
            "HFStatusBarMode():&#160;HFStatusBarRepresenter.h"
        ∷ []))
    ∷ (entry "hfstatusbarrepresenter" "HFStatusBarRepresenter"
        (target "../interface_h_f_status_bar_representer.html" "" ∷ []))
    ∷ (entry "hfstatusbarrepresenter_2eh" "HFStatusBarRepresenter.h"
        (target "../_h_f_status_bar_representer_8h.html" "" ∷ []))
    ∷ (entry "hfstatusmodeapproximate" "HFStatusModeApproximate" (
        target
          "../_h_f_status_bar_representer_8h.html#a448ec6194653637a96cae094314c667aabea18f11b0b648b190131165f83c0da3"
          "HFStatusBarRepresenter.h"
        ∷ []))
    ∷ (entry "hfstatusmodecount" "HFSTATUSMODECOUNT" (
        target
          "../_h_f_status_bar_representer_8h.html#a448ec6194653637a96cae094314c667aaf1e355655982e6df77b73e57cf9fb74a"
          "HFStatusBarRepresenter.h"
        ∷ []))
    ∷ (entry "hfstatusmodedecimal" "HFStatusModeDecimal" (
        target
          "../_h_f_status_bar_representer_8h.html#a448ec6194653637a96cae094314c667aa19189020cf2c7e3073eddaa7be844a9b"
          "HFStatusBarRepresenter.h"
        ∷ []))
    ∷ (entry "hfstatusmodehexadecimal" "HFStatusModeHexadecimal" (
        target
          "../_h_f_status_bar_representer_8h.html#a448ec6194653637a96cae094314c667aa2b25df5bf07e63e2459c61e19752c38a"
          "HFStatusBarRepresenter.h"
        ∷ []))
    ∷ (entry "hfstoptiming" "HFStopTiming"
        (target "../_h_f_functions_8h.html#a92ef6ce654b87c024d9818c3eb32b310" "HFFunctions.h" ∷ []))
    ∷ (entry "hfstringencodingcharacterlength" "HFStringEncodingCharacterLength"
        (target "../_h_f_functions_8h.html#af701c91f3cf2fe151c68e239a40a79a5" "HFFunctions.h" ∷ []))
    ∷ (entry "hfstringencodingissupersetofascii" "HFStringEncodingIsSupersetOfASCII"
        (target "../_h_f_functions_8h.html#a925eaf1edd5e195cc196cc300c13276c" "HFFunctions.h" ∷ []))
    ∷ (entry "hfstringencodingtextrepresenter" "HFStringEncodingTextRepresenter"
        (target "../interface_h_f_string_encoding_text_representer.html" "" ∷ []))
    ∷ (entry "hfstringencodingtextrepresenter_2eh" "HFStringEncodingTextRepresenter.h"
        (target "../_h_f_string_encoding_text_representer_8h.html" "" ∷ []))
    ∷ (entry "hftextfield" "HFTextField" (target "../interface_h_f_text_field.html" "" ∷ []))
    ∷ (entry "hftextfield_2eh" "HFTextField.h" (target "../_h_f_text_field_8h.html" "" ∷ []))
    ∷ (entry "hftextrepresenter" "HFTextRepresenter"
        (target "../interface_h_f_text_representer.html" "" ∷ []))
    ∷ (entry "hftextrepresenter_2eh" "HFTextRepresenter.h"
        (target "../_h_f_text_representer_8h.html" "" ∷ []))
    ∷ (entry "hftextview" "HFTextView" (target "../interface_h_f_text_view.html" "" ∷ []))
    ∷ (entry "hftextview_2eh" "HFTextView.h" (target "../_h_f_text_view_8h.html" "" ∷ []))
    ∷ (entry "hftextviewdelegate_20_2dp" "HFTextViewDelegate -p"
        (target "../protocol_h_f_text_view_delegate_01-p.html" "" ∷ []))
    ∷ (entry "hftextviewdelegate_2dp" "HFTextViewDelegate-p"
        (target "../protocol_h_f_text_view_delegate-p.html" "" ∷ []))
    ∷ (entry "hftypes_2eh" "HFTypes.h" (target "../_h_f_types_8h.html" "" ∷ []))
    ∷ (entry "hfunregisterviewforwindowappearancechanges"
        "HFUnregisterViewForWindowAppearanceChanges"
        (target "../_h_f_functions_8h.html#ac1a3bb72a6760c6488bd9223be25d789" "HFFunctions.h" ∷ []))
    ∷ (entry "hfverticalscrollerrepresenter" "HFVerticalScrollerRepresenter"
        (target "../interface_h_f_vertical_scroller_representer.html" "" ∷ []))
    ∷ (entry "hfverticalscrollerrepresenter_2eh" "HFVerticalScrollerRepresenter.h"
        (target "../_h_f_vertical_scroller_representer_8h.html" "" ∷ []))
    ∷ (entry "hfzerorange" "HFZeroRange"
        (target "../_h_f_functions_8h.html#aae371535050d473bf449536855db6af4" "HFFunctions.h" ∷ []))
    ∷ (entry "high_20level" "High Level" (target "../group__highlevel.html" "" ∷ []))
    ∷ (entry "hexfiend_2eframework" "HexFiend.framework" (target "../index.html" "" ∷ []))
    ∷ []
