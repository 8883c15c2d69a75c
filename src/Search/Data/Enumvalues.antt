-- ===== src/Search/Data/Enumvalues.antt =====
-- The entries of docs/docs/search/enumvalues_*.js.
use hex_fiend.Prelude.{List, [], ◌∷◌}
use hex_fiend.Search.Results.{Entry}
use hex_fiend.Search.Data.{entry, target}

-- `searchData` of enumvalues_0.js
abbrev pub enumvalues_0 : List Entry
enumvalues_0 =
    (entry "hfasciidatastringtype" "HFASCIIDataStringType" (
      target
        "../_h_f_byte_array_8h.html#a1af2563dbaa452271bb8d8967f2443beaac306eadcbdc57022d9280aa1a808d81"
        "HFByteArray.h"
      ∷ []))
    ∷ (entry "hfcontrollerantialias" "HFControllerAntialias" (
        target
          "../_h_f_controller_8h.html#adfb5b0d9c70a4b65379361b34ba1aea5af8dd38d02092c208ed2b1131e14a17d3"
          "HFController.h"
        ∷ []))
    ∷ (entry "hfcontrollerbookmarks" "HFControllerBookmarks" (
        target
          "../_h_f_controller_8h.html#adfb5b0d9c70a4b65379361b34ba1aea5aa577bf1aab652c8e7c10a6474539209c"
          "HFController.h"
        ∷ []))
    ∷ (entry "hfcontrollerbytegranularity" "HFControllerByteGranularity" (
        target
          "../_h_f_controller_8h.html#adfb5b0d9c70a4b65379361b34ba1aea5a1485006beedc3e7f130b8728076d8deb"
          "HFController.h"
        ∷ []))
    ∷ (entry "hfcontrollerbyterangeattributes" "HFControllerByteRangeAttributes" (
        target
          "../_h_f_controller_8h.html#adfb5b0d9c70a4b65379361b34ba1aea5a131ccd5f4c7910f45c3eb65211dc0d77"
          "HFController.h"
        ∷ []))
    ∷ (entry "hfcontrollerbytespercolumn" "HFControllerBytesPerColumn" (
        target
          "../_h_f_controller_8h.html#adfb5b0d9c70a4b65379361b34ba1aea5a1e162c7c8f5e5524f1c2af1b44c1319e"
          "HFController.h"
        ∷ []))
    ∷ (entry "hfcontrollerbytesperline" "HFControllerBytesPerLine" (
        target
          "../_h_f_controller_8h.html#adfb5b0d9c70a4b65379361b34ba1aea5ac6a933c42707198ae12cdf7fb34663e5"
          "HFController.h"
        ∷ []))
    ∷ (entry "hfcontrollercolorbytes" "HFControllerColorBytes" (
        target
          "../_h_f_controller_8h.html#adfb5b0d9c70a4b65379361b34ba1aea5a34679cdab27e96e3624ef98ef13c1f55"
          "HFController.h"
        ∷ []))
    ∷ (entry "hfcontrollercontentlength" "HFControllerContentLength" (
        target
          "../_h_f_controller_8h.html#adfb5b0d9c70a4b65379361b34ba1aea5a2be2b9e1f36c438e34bbfe14e91f82df"
          "HFController.h"
        ∷ []))
    ∷ (entry "hfcontrollercontentvalue" "HFControllerContentValue" (
        target
          "../_h_f_controller_8h.html#adfb5b0d9c70a4b65379361b34ba1aea5a3676fd54c466a746e9ffe4519df7b21c"
          "HFController.h"
        ∷ []))
    ∷ (entry "hfcontrollerdirectionleft" "HFControllerDirectionLeft" (
        target
          "../_h_f_controller_8h.html#a375dde7ced2bf775954f9e950eec3addaf3e7675621117f7794874179cf1f96e3"
          "HFController.h"
        ∷ []))
    ∷ (entry "hfcontrollerdirectionright" "HFControllerDirectionRight" (
        target
          "../_h_f_controller_8h.html#a375dde7ced2bf775954f9e950eec3adda27c6d9161296830b1bbcd144d701f3c8"
          "HFController.h"
        ∷ []))
    ∷ (entry "hfcontrollerdiscardselection" "HFControllerDiscardSelection" (
        target
          "../_h_f_controller_8h.html#a5439328d873d33dd7baf4622c28a513fa51e9f20729849cbebe8fea0aed2beb48"
          "HFController.h"
        ∷ []))
    ∷ (entry "hfcontrollerdisplayedlinerange" "HFControllerDisplayedLineRange" (
        target
          "../_h_f_controller_8h.html#adfb5b0d9c70a4b65379361b34ba1aea5ad03763452ac1b2798e2c80578ebff10d"
          "HFController.h"
        ∷ []))
    ∷ (entry "hfcontrollereditable" "HFControllerEditable" (
        target
          "../_h_f_controller_8h.html#adfb5b0d9c70a4b65379361b34ba1aea5a509b03acdc13db215f98c87a8b1af1bd"
          "HFController.h"
        ∷ []))
    ∷ (entry "hfcontrollerextendselection" "HFControllerExtendSelection" (
        target
          "../_h_f_controller_8h.html#a5439328d873d33dd7baf4622c28a513fa435bd452118e8dcebb19832e00c48482"
          "HFController.h"
        ∷ []))
    ∷ (entry "hfcontrollerfont" "HFControllerFont" (
        target
          "../_h_f_controller_8h.html#adfb5b0d9c70a4b65379361b34ba1aea5a407c21e32cc8c4d865c50aadb84c6c0c"
          "HFController.h"
        ∷ []))
    ∷ (entry "hfcontrollerhidenullbytes" "HFControllerHideNullBytes" (
        target
          "../_h_f_controller_8h.html#adfb5b0d9c70a4b65379361b34ba1aea5a6302fbb9baa3c333f167fb05d4500960"
          "HFController.h"
        ∷ []))
    ∷ (entry "hfcontrollerlineheight" "HFControllerLineHeight" (
        target
          "../_h_f_controller_8h.html#adfb5b0d9c70a4b65379361b34ba1aea5a68bafa34a750cd43ba9b9ab0a5d9a4b8"
          "HFController.h"
        ∷ []))
    ∷ (entry "hfcontrollermovementbyte" "HFControllerMovementByte" (
        target
          "../_h_f_controller_8h.html#af7604c610ec5c06d5e9f65ae96fb6aa4ab8e3972c4da6d2e0a520cecf386ee537"
          "HFController.h"
        ∷ []))
    ∷ (entry "hfcontrollermovementcolumn" "HFControllerMovementColumn" (
        target
          "../_h_f_controller_8h.html#af7604c610ec5c06d5e9f65ae96fb6aa4a76724b4804de19986983f675d1f6df89"
          "HFController.h"
        ∷ []))
    ∷ (entry "hfcontrollermovementdocument" "HFControllerMovementDocument" (
        target
          "../_h_f_controller_8h.html#af7604c610ec5c06d5e9f65ae96fb6aa4a615c20d42ac369282c7d995613b91536"
          "HFController.h"
        ∷ []))
    ∷ (entry "hfcontrollermovementline" "HFControllerMovementLine" (
        target
          "../_h_f_controller_8h.html#af7604c610ec5c06d5e9f65ae96fb6aa4adb40ee0fea8b00d86257e1a7681ec02f"
          "HFController.h"
        ∷ []))
    ∷ (entry "hfcontrollermovementpage" "HFControllerMovementPage" (
        target
          "../_h_f_controller_8h.html#af7604c610ec5c06d5e9f65ae96fb6aa4af1d01fcf2b0d6b71c6c402a94745c6fe"
          "HFController.h"
        ∷ []))
    ∷ (entry "hfcontrollerselectedranges" "HFControllerSelectedRanges" (
        target
          "../_h_f_controller_8h.html#adfb5b0d9c70a4b65379361b34ba1aea5a3c11357390226e8afd1d25f4205f7da0"
          "HFController.h"
        ∷ []))
    ∷ (entry "hfcontrollerselectionpulseamount" "HFControllerSelectionPulseAmount" (
        target
          "../_h_f_controller_8h.html#adfb5b0d9c70a4b65379361b34ba1aea5af9018582c51e2b8473f61c0d67a25170"
          "HFController.h"
        ∷ []))
    ∷ (entry "hfcontrollershiftselection" "HFControllerShiftSelection" (
        target
          "../_h_f_controller_8h.html#a5439328d873d33dd7baf4622c28a513fa2d1a96664f11e58da108f6d1f8daef50"
          "HFController.h"
        ∷ []))
    ∷ (entry "hfcontrollershowcallouts" "HFControllerShowCallouts" (
        target
          "../_h_f_controller_8h.html#adfb5b0d9c70a4b65379361b34ba1aea5ab0997589f8558b3e912fb66dd5adcb59"
          "HFController.h"
        ∷ []))
    ∷ (entry "hfcontrollerviewsizeratios" "HFControllerViewSizeRatios" (
        target
          "../_h_f_controller_8h.html#adfb5b0d9c70a4b65379361b34ba1aea5a694100c5b77fec8f1184d19f7ede7d2f"
          "HFController.h"
        ∷ []))
    ∷ (entry "hfhexdatastringtype" "HFHexDataStringType" (
        target
          "../_h_f_byte_array_8h.html#a1af2563dbaa452271bb8d8967f2443bea19cf011438457f5556468df6a8c40721"
          "HFByteArray.h"
        ∷ []))
    ∷ (entry "hfinsertmode" "HFInsertMode" (
        target
          "../_h_f_controller_8h.html#a699a6c9cf2166c36da490e29d6ed2473a6d9fcceef66f969985489a83bcd7bd5a"
          "HFController.h"
        ∷ []))
    ∷ (entry "hflinenumberformatdecimal" "HFLineNumberFormatDecimal" (
        target
          "../_h_f_line_counting_representer_8h.html#ab910967284ab6c817dbd44531c4a3a2eae551fea869219d6fb297f904492f5ccc"
          "HFLineCountingRepresenter.h"
        ∷ []))
    ∷ (entry "hflinenumberformathexadecimal" "HFLineNumberFormatHexadecimal" (
        target
          "../_h_f_line_counting_representer_8h.html#ab910967284ab6c817dbd44531c4a3a2ea8acffc17c8abb8fac3f2327c2e5ffe66"
          "HFLineCountingRepresenter.h"
        ∷ []))
    ∷ (entry "hflinenumberformatmaximum" "HFLineNumberFormatMAXIMUM" (
        target
          "../_h_f_line_counting_representer_8h.html#ab910967284ab6c817dbd44531c4a3a2ea672bd987a849e3d8b138cd1ad23c1eca"
          "HFLineCountingRepresenter.h"
        ∷ []))
    ∷ (entry "hfoverwritemode" "HFOverwriteMode" (
        target
          "../_h_f_controller_8h.html#a699a6c9cf2166c36da490e29d6ed2473a57713c6a4e1414210225d06760baf53e"
          "HFController.h"
        ∷ []))
    ∷ (entry "hfreadonlymode" "HFReadOnlyMode" (
        target
          "../_h_f_controller_8h.html#a699a6c9cf2166c36da490e29d6ed2473a05a305e1472ec85755556a80e9a40c41"
          "HFController.h"
        ∷ []))
    ∷ (entry "hfstatusmodeapproximate" "HFStatusModeApproximate" (
        target
          "../_h_f_status_bar_representer_8h.html#a448ec6194653637a96cae094314c667aabea18f11b0b648b190131165f83c0da3"
          "HFStatusBarRepresenter.h"
        ∷ []))
    ∷ (entry "hfstatusmodecount" "HFSTATUSMODECOUNT" (
        target
          "../_h_f_status_bar_representer_8h.html#a448ec6194653637a96cae094314c667aaf1e355655982e6df77b73e57cf9fb74a"
          "HFStatusBarRepresenter.h"
        ∷ []))
    ∷ (entry "hfstatusmodedecimal" "HFStatusModeDecimal" (
        target
          "../_h_f_status_bar_representer_8h.html#a448ec6194653637a96cae094314c667aa19189020cf2c7e3073eddaa7be844a9b"
          "HFStatusBarRepresenter.h"
        ∷ []))
    ∷ (entry "hfstatusmodehexadecimal" "HFStatusModeHexadecimal" (
        target
          "../_h_f_status_bar_representer_8h.html#a448ec6194653637a96cae094314c667aa2b25df5bf07e63e2459c61e19752c38a"
          "HFStatusBarRepresenter.h"
        ∷ []))
    ∷ []
