-- ===== src/Search/Data.antt =====
-- The arrays `searchData` of docs/docs/search: for each page of results its entries.
pub mod All0To2
pub mod All3To4
pub mod All8
pub mod All9
pub mod AllAToC
pub mod AllDTo10
pub mod All11To14
pub mod Classes
pub mod Files
pub mod Functions0To1
pub mod Functions2To6
pub mod Functions8To9
pub mod FunctionsAToD
pub mod FunctionsETo10
pub mod Variables
pub mod Enumvalues
pub mod Properties0To9
pub mod Small
use hex_fiend.Prelude.{true, List, codes}
use hex_fiend.Search.Results.{Entry, Target}
use Prim.Native.String.{String}

abbrev pub target : String → String → Target
target href scope = record { href = codes href; in_parent = true; scope = codes scope }

abbrev pub entry : String → String → List Target → Entry
entry id name targets = record { id = codes id; name = codes name; targets = targets }
