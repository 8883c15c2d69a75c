-- ===== src/Search/Data/Properties0To9.antt =====
-- The entries of docs/docs/search/properties_*.js.
use hex_fiend.Prelude.{List, [], ◌∷◌}
use hex_fiend.Search.Results.{Entry}
use hex_fiend.Search.Data.{entry, target}

-- `searchData` of properties_0.js
abbrev pub properties_0 : List Entry
properties_0 =
    (entry "backgroundcolor" "backgroundColor" (
      target "../interface_h_f_line_counting_representer.html#a0ab44d5d715a26e07b14801ff7776022"
        "HFLineCountingRepresenter"
      ∷ []))
    ∷ (entry "backgroundcolors" "backgroundColors" (
        target "../interface_h_f_text_view.html#ae72dcd17255a7ea08d9afac1ef7ac011" "HFTextView"
        ∷ []))
    ∷ (entry "behavesastextfield" "behavesAsTextField" (
        target "../interface_h_f_text_representer.html#a87a0e97b488cc308ceca0630f8f6e64a"
          "HFTextRepresenter"
        ∷ []))
    ∷ (entry "bordercolor" "borderColor" (
        target "../interface_h_f_line_counting_representer.html#a08051178f23c25c80d1dd0e7034930a8"
          "HFLineCountingRepresenter"
        ∷ []))
    ∷ (entry "bordered" "bordered" (
        target "../interface_h_f_text_view.html#a0cb285a81aa81b206b05ba8d3264ff28" "HFTextView"
        ∷ []))
    ∷ (entry "borderededges" "borderedEdges" (
        target "../interface_h_f_line_counting_representer.html#a3598bdd028eaea3c377171b0870dde91"
          "HFLineCountingRepresenter"
        ∷ []))
    ∷ (entry "bytearray" "byteArray" (
        target "../interface_h_f_controller.html#a8e3c9ca47f754544fef36de9d7e0f56e"
          "HFController::byteArray()"
        ∷ target "../interface_h_f_text_view.html#aea80bb47bbffaa395493c5237db4b578"
            "HFTextView::byteArray()"
        ∷ []))
    ∷ (entry "bytespercolumn" "bytesPerColumn" (
        target "../interface_h_f_controller.html#a669a1b434286d5a7a7f2d43db782317b" "HFController"
        ∷ []))
    ∷ (entry "bytesperline" "bytesPerLine" (
        target "../interface_h_f_line_counting_view.html#ad237d4ffeb03834233baa7c55897963c"
          "HFLineCountingView"
        ∷ []))
    ∷ []

-- `searchData` of properties_1.js
abbrev pub properties_1 : List Entry
properties_1 =
    (entry "controller" "controller" (
      target "../interface_h_f_text_view.html#a9d04a8ac893159d65498c1c0b0533d31" "HFTextView" ∷ []))
    ∷ []

-- `searchData` of properties_2.js
abbrev pub properties_2 : List Entry
properties_2 =
    (entry "data" "data" (
      target "../interface_h_f_text_view.html#a546bfc05654c23960a5b5ded1e35d447" "HFTextView" ∷ []))
    ∷ (entry "delegate" "delegate" (
        target "../interface_h_f_progress_tracker.html#a2f4408dead46aae1142535b312ac381c"
          "HFProgressTracker::delegate()"
        ∷ target "../interface_h_f_text_view.html#a08baf8fb71edae71ab86675e5cef3173"
            "HFTextView::delegate()"
        ∷ []))
    ∷ (entry "digitcount" "digitCount" (
        target "../interface_h_f_line_counting_representer.html#a0623bcf451815efb7424fed845986821"
          "HFLineCountingRepresenter"
        ∷ []))
    ∷ (entry "displayedlinerange" "displayedLineRange" (
        target "../interface_h_f_controller.html#afc8537436d0b38a6763563296bd23a66" "HFController"
        ∷ []))
    ∷ []

-- `searchData` of properties_3.js
abbrev pub properties_3 : List Entry
properties_3 =
    (entry "editable" "editable" (
      target "../interface_h_f_controller.html#a0ccaf58ac06e6510b2f40fc1f07c5211"
        "HFController::editable()"
      ∷ target "../interface_h_f_text_field.html#a0e3ed11ff50eb483b680bf2a546d4fb7"
          "HFTextField::editable()"
      ∷ []))
    ∷ (entry "editmode" "editMode" (
        target "../interface_h_f_controller.html#ace0cc93e891e8b31c4320040702a6f0f" "HFController"
        ∷ []))
    ∷ (entry "encoding" "encoding" (
        target
          "../interface_h_f_string_encoding_text_representer.html#ab0dcff2820771cd6ab1b6d5d99ae8cc4"
          "HFStringEncodingTextRepresenter"
        ∷ []))
    ∷ []

-- `searchData` of properties_4.js
abbrev pub properties_4 : List Entry
properties_4 =
    (entry "font" "font" (
      target "../interface_h_f_controller.html#ac564096554a861c9f44367124db70b4b"
        "HFController::font()"
      ∷ target "../interface_h_f_line_counting_view.html#a6af132ef7eb7177c529a54bd4073f12b"
          "HFLineCountingView::font()"
      ∷ []))
    ∷ []

-- `searchData` of properties_5.js
abbrev pub properties_5 : List Entry
properties_5 =
    (entry "interiorshadowedge" "interiorShadowEdge" (
      target "../interface_h_f_line_counting_representer.html#a5907cfd3693a641493d11241e606890f"
        "HFLineCountingRepresenter"
      ∷ []))
    ∷ (entry "isfixedlength" "isFixedLength" (
        target "../interface_h_f_file_reference.html#a96407283d05981a38b695a188872f619"
          "HFFileReference"
        ∷ []))
    ∷ (entry "isprivileged" "isPrivileged" (
        target "../interface_h_f_file_reference.html#a5920cc8cc72ffeeb64d1392af4b35eea"
          "HFFileReference"
        ∷ []))
    ∷ []

-- `searchData` of properties_6.js
abbrev pub properties_6 : List Entry
properties_6 =
    (entry "layoutposition" "layoutPosition" (
      target "../interface_h_f_representer.html#a05cf33df8751ca00d2b08ac2cbe62067" "HFRepresenter"
      ∷ []))
    ∷ (entry "layoutrepresenter" "layoutRepresenter" (
        target "../interface_h_f_text_view.html#a1844eea104774e5f1840b7d663345b58" "HFTextView"
        ∷ []))
    ∷ (entry "lineheight" "lineHeight" (
        target "../interface_h_f_line_counting_view.html#abb9c87c891219af75203ce4c327c23a2"
          "HFLineCountingView"
        ∷ []))
    ∷ (entry "linenumberformat" "lineNumberFormat" (
        target "../interface_h_f_line_counting_representer.html#a67a5ca9652246b4e0fbad8aaf6398751"
          "HFLineCountingRepresenter::lineNumberFormat()"
        ∷ target "../interface_h_f_line_counting_view.html#ab3ba766f8daafe3199b17cb2dea5ae7d"
            "HFLineCountingView::lineNumberFormat()"
        ∷ []))
    ∷ (entry "linerangetodraw" "lineRangeToDraw" (
        target "../interface_h_f_line_counting_view.html#a5230ff16a480254b84ce364d9396909f"
          "HFLineCountingView"
        ∷ []))
    ∷ []

-- `searchData` of properties_7.js
abbrev pub properties_7 : List Entry
properties_7 =
    (entry "maximizesbytesperline" "maximizesBytesPerLine" (
      target "../interface_h_f_layout_representer.html#a88bae352e0a85af02dfef594b2c75bb9"
        "HFLayoutRepresenter"
      ∷ []))
    ∷ (entry "maxprogress" "maxProgress" (
        target "../interface_h_f_progress_tracker.html#acf443cae934971a56fbf2934f6a3eee2"
          "HFProgressTracker"
        ∷ []))
    ∷ (entry "minimumdigitcount" "minimumDigitCount" (
        target "../interface_h_f_line_counting_representer.html#a917c1d5435fd0208bbfd09c9fba10eec"
          "HFLineCountingRepresenter"
        ∷ []))
    ∷ []

-- `searchData` of properties_8.js
abbrev pub properties_8 : List Entry
properties_8 =
    (entry "preferredwidth" "preferredWidth" (
      target "../interface_h_f_line_counting_representer.html#ae4f9efe156f6d144487c8c7cbf43f679"
        "HFLineCountingRepresenter"
      ∷ []))
    ∷ (entry "progressindicator" "progressIndicator" (
        target "../interface_h_f_progress_tracker.html#a33e655d87e0a1fa8a3412c615415ba90"
          "HFProgressTracker"
        ∷ []))
    ∷ []

-- `searchData` of properties_9.js
abbrev pub properties_9 : List Entry
properties_9 =
    (entry "representer" "representer" (
      target "../interface_h_f_line_counting_view.html#a3ce930dee3ecb47d20e254c66c83632d"
        "HFLineCountingView"
      ∷ []))
    ∷ (entry "representers" "representers" (
        target "../interface_h_f_controller.html#a165dbb3c3e4c7f8154b2349b0d132147"
          "HFController::representers()"
        ∷ target "../interface_h_f_layout_representer.html#a6c8494accd0fd1ef12bb6bf5f24860f9"
            "HFLayoutRepresenter::representers()"
        ∷ []))
    ∷ (entry "rowbackgroundcolors" "rowBackgroundColors" (
        target "../interface_h_f_text_representer.html#a0b4cd25fe610f2cac726eb8556e30686"
          "HFTextRepresenter"
        ∷ []))
    ∷ []
