-- ===== src/Lib.antt =====
-- Hex Fiend: the ranges of its framework, and the documentation site with its menu, its directories
-- and its search.
--
-- The framework in Objective-C measures files in `unsigned long long` and HFRange; the functions on
-- these in framework/sources/HFFunctions.h are what its byte arrays and views compute with.
--
-- The repository publishes the documentation of the framework as a site under docs/docs. Its search
-- has two parts in docs/docs/search/search.js. The panel on every page (class SearchBox) reads a
-- word, looks its first character up in the tables of docs/docs/search/searchdata.js and loads a
-- page of results into a frame, with the escaped word in the address. The page of results (class
-- SearchResults) builds its rows from an array of entries (createResults), reads the word from the
-- address, shows the rows whose identifier starts with that of the word (Search), and handles the
-- keyboard (Nav, NavChild) and the unfolding of rows with several results (Toggle).
--
-- The arrays of entries and the tables are data of the site, in docs/docs/search, and stand here in
-- full. The pages of the site also have a menu (docs/docs/menu.js, with its tree in
-- docs/docs/menudata.js) and sections that open and close, among them the rows of directories
-- (docs/docs/dynsections.js). Both work on the page through jQuery.
--
-- The files:
--   Prelude           tests, lists, strings as lists of UTF-16 code units, numerals, integers, and
--                     the outcomes of a call (returns, throws, out_of_fuel)
--   Framework/Word    the functions on unsigned long long (HFSum, HFRoundUpToMultiple, ...)
--   Framework/Multiples     the products and HFLeastCommonMultiple
--   Framework/Ranges  HFRange and the functions on it
--   Framework/Ranges/Merge  organizeAndMergeRanges: of framework/sources/HFFunctions.m
--   Framework/RangeSets     the tests on the fenceposts of HFRangeSet, in the same file
--   Menu              makeTree of docs/docs/menu.js; its tree in Menu/Data, initMenu in Menu/Init
--   Dynsections       toggleVisibility, updateStripes, toggleLevel, toggleFolder, toggleInherit of
--                     docs/docs/dynsections.js, over the calls of jQuery (JQuery, Call)
--   Dynsections/Laws  what these calls do, by the documentation of jQuery
--   Dynsections/Examples    a page with jQuery on it, and clicks
--   Search/Spaces     the regular expressions on spaces
--   Search/Ident      convertToId, and the test for a prefix
--   Search/Escape     the functions escape and unescape of the language and location.search
--   Search/Dom        documents: elements with attributes, display and children; getElementById
--   Search/Sections   the tables of searchdata.js, and indexOf
--   Search/Data       the arrays searchData of docs/docs/search: all_0.js and so on
--   Search/Site       which entries the pages of a section have in common with its table
--   Search/Panel      the fields of SearchBox and the elements and timers it works on; Activate,
--                     CloseResultsWindow, CloseSelectionWindow, OnSearchSelectShow and -Hide
--   Search/Panel/Query      Search of SearchBox
--   Search/Panel/Selection  SelectItemCount, SelectItemSet, OnSelectItem, OnSearchSelectKey
--   Search/Panel/Timers     the timers that wait, and their firing
--   Search/Field      OnSearchFieldChange
--   Search/Setup      init_search
--   Search/Results    the fields of SearchResults, setKeyActions, setClassAttr, createResults
--   Search/Results/Filter   Search of SearchResults
--   Search/Results/Children FindChildElement and Toggle
--   Search/Results/Nav      NavNext, NavPrev, ProcessKeys; Nav and NavChild in Nav/Keys
--   Search/EndToEnd   from the search field to the rows
--   Search/Examples   runs and examples
--   Framework/Examples      the same for the framework
-- Below a component stand the modules with its theorems.
--
-- A word is a number below 2 ^ 64, with the operations taken modulo 2 ^ 64. A failed assertion, or a
-- division by 0, is none. The loop of HFLeastCommonMultiple has one more round than its second
-- number, which gets smaller. Of HFFunctions.h the floating point, the atomic operations and the
-- counting of digits are not modelled.
--
-- State is a record, and an operation is a function from the state to the next one, in an Outcome
-- where the code can throw or loops. A state at a throw is not kept. An element of a document is
-- named by its way down from the top. Lengths in px are integers.
--
-- Fuel: the loop of FindChildElement goes over each node below the parent once at most, and has one
-- more round than there are nodes. NavNext, NavPrev and the search for the last child meet at most
-- as many items as the document has elements, since their identifiers differ, and have one more
-- round. A run with too little fuel comes to out_of_fuel.
--
-- Parameters: CFArrayBSearchValues, which finds the first fencepost that is not less than a number;
-- the calls of jQuery, where an element that a law of show and hide is about is one whose
-- surroundings are displayed (own); the regular expression of toggleFolder is read for identifiers
-- of letters, digits and `_`, which stand for themselves in it. The handlers' results, which tell
-- the browser not to follow a link, are left out. Further parameters: toLowerCase, and the
-- comparison of a string with a number, of the language (Strings); the sizes and offsets that the
-- browser's layout gives (Layout); the event of a key by its kind and code.
--
-- The parent of a row is the element SRResults, which the model leaves out: the list of rows is the
-- document. Not modelled: the events that focus() and blur() raise again in the browser, text nodes
-- inside the rows, the links' click handlers as code, jQuery itself, which is a copy of another
-- project, and the rest of the repository: of the framework what is not named above, the application
-- in Objective-C, and the templates in Tcl.
pub mod Prelude
pub mod Framework
pub mod Menu
pub mod Dynsections
pub mod Search
