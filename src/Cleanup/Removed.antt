-- ===== src/Cleanup/Removed.antt =====
-- How many rows the deletions by count and by size of src/persistence/cleanup.rs remove.
use Prim.Native.String.{String}
use geodineum_comms.Prelude.{◌≡◌, true, false, not, List, [], ◌∷◌, keep}
use geodineum_comms.Prelude.Texts.{contains}
use geodineum_comms.Prelude.Dict.{contains_key}
use geodineum_comms.Archive.{Table}
use geodineum_comms.Cleanup.{is_active}

-- The rows that a deletion by count or by size may take.
abbrev pub finished : Table → Table
finished t = keep (λ x. not (is_active x.1.status)) t

abbrev AreDistinct : List String → Type 0
AreDistinct [] = Unit {0}
AreDistinct (k ∷ ks) = (contains k ks ≡ false) × AreDistinct ks

abbrev AreKeys : Table → List String → Type 0
AreKeys t [] = Unit {0}
AreKeys t (k ∷ ks) = (contains_key k t ≡ true) × AreKeys t ks
