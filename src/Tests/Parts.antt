-- ===== src/Tests/Parts.antt =====
-- Two files, of which the second runs on into the second part.
use burst.Base.{◌≡◌, refl, some, List, [], ◌∷◌}
use burst.Parser.{FileMetadata}
use burst.Parser.PartMap.{find_continuing}
use burst.Parser.PartMap.Continuing.{Continuing}
use burst.Parser.RoundTrip.Entry.{metadata_of}
use burst.Tests.Data.{entry_of}

abbrev two_files : List FileMetadata
two_files = metadata_of 8388608 (entry_of 7 0) ∷ metadata_of 8388608 (entry_of 9000000 100) ∷ []

second_found : find_continuing two_files 0 8388608 ≡ some 1
unfolding find_continuing
second_found = refl
