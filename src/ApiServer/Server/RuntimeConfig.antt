-- ===== src/ApiServer/Server/RuntimeConfig.antt =====
-- server.go: the loop of Complete that renames the keys of RuntimeConfig while it goes over the map.
use hohapiserver.Base.{
  String, ◌==◌, eq_iff, ◌≡◌, refl, ◌∙◌, arith, Bool, true, false, not, ◌&&◌, ◌||◌, Bool-cases, inl,
  inr, All, List, [], ◌∷◌, map, elem, lookup, insert, lookup-insert,
}
use hohapiserver.ApiServer.Server.Complete.{is_core, delete, rename_entry, rename_loop}

-- A key that the loop leaves alone.
abbrev pub left_alone : String → Bool
left_alone key = not (is_core key) && not (key == "api/legacy")

abbrev pub Entry : Type 0
Entry = String × String

-- Left alone, or still to be met.
abbrev settled : List Entry → Entry → Bool
settled todo e = left_alone e.0 || elem e.0 (map (λ t. t.0) todo)

delete-settled :
    (key value : String) (todo cfg : List Entry)
    → All (λ e. settled ((key, value) ∷ todo) e ≡ true) cfg
    → All (λ e. settled todo e ≡ true) (delete key cfg)
unfolding delete elem
delete-settled key value todo [] h = tt
delete-settled key value todo (e ∷ rest) (h, hs) = elim (Bool-cases (e.0 == key)) [
  | inl same ↦ rw same (delete-settled key value todo rest hs)
  | inr differs ↦ rw differs (ground (arith, h, differs), delete-settled key value todo rest hs)
]

keep-settled :
    (key value : String) (todo cfg : List Entry)
    → left_alone key ≡ true
    → All (λ e. settled ((key, value) ∷ todo) e ≡ true) cfg
    → All (λ e. settled todo e ≡ true) cfg
unfolding elem
keep-settled key value todo [] k h = tt
keep-settled key value todo (e ∷ rest) k (h, hs) =
    (ground (arith, h, k, eq_iff e.0 key), keep-settled key value todo rest k hs)

insert-settled :
    (value : String) (todo cfg : List Entry)
    → All (λ e. settled todo e ≡ true) cfg
    → All (λ e. settled todo e ≡ true) (insert "/v1" value cfg)
unfolding insert is_core
insert-settled value todo [] h = (refl, tt)
insert-settled value todo (e ∷ rest) (h, hs) = elim (Bool-cases (e.0 == "/v1")) [
  | inl same ↦ rw same (refl, hs)
  | inr differs ↦ rw differs (h, insert-settled value todo rest hs)
]

delete-keeps :
    (P : Entry → Type 0) (key : String) (cfg : List Entry) → All P cfg → All P (delete key cfg)
unfolding delete
delete-keeps P key [] h = tt
delete-keeps P key (e ∷ rest) (h, hs) = elim (Bool-cases (e.0 == key)) [
  | inl same ↦ rw same (delete-keeps P key rest hs)
  | inr differs ↦ rw differs (h, delete-keeps P key rest hs)
]

rename_entry-settled :
    (key value : String) (todo cfg : List Entry)
    → All (λ e. settled ((key, value) ∷ todo) e ≡ true) cfg
    → All (λ e. settled todo e ≡ true) (rename_entry key value cfg)
unfolding rename_entry
rename_entry-settled key value todo cfg h = elim (Bool-cases (is_core key)) [
  | inl core ↦
      let renamed =
        insert-settled value todo (delete key cfg) (delete-settled key value todo cfg h) in
      elim (Bool-cases (key == "api/legacy")) [
        | inl legacy ↦ rw (core, legacy) (delete-keeps (λ e. settled todo e ≡ true) key _ renamed)
        | inr other ↦ rw (core, other) renamed
      ]
  | inr kept ↦ elim (Bool-cases (key == "api/legacy")) [
    | inl legacy ↦ rw (kept, legacy) (delete-settled key value todo cfg h)
    | inr other ↦ rw (kept, other) (keep-settled key value todo cfg (rw (kept, other) refl) h)
  ]
]

rename_loop-settled :
    (order cfg : List Entry)
    → All (λ e. settled order e ≡ true) cfg
    → All (λ e. settled [] e ≡ true) (rename_loop order cfg)
unfolding rename_loop
rename_loop-settled [] cfg h = h
rename_loop-settled ((key, value) ∷ rest) cfg h =
    rename_loop-settled rest (rename_entry key value cfg)
      (rename_entry-settled key value rest cfg h)

All-map :
    {P Q : Entry → Type 0} (cfg : List Entry) → ((e : Entry) → P e → Q e) → All P cfg → All Q cfg
All-map [] f h = tt
All-map (e ∷ rest) f (h, hs) = (f e h, All-map rest f hs)

lookup-delete :
    (key read : String) (cfg : List Entry)
    → (key == read) ≡ false
    → lookup read (delete key cfg) ≡ lookup read cfg
unfolding lookup delete
lookup-delete key read [] d = refl
lookup-delete key read (e ∷ rest) d =
    ground
      (arith, d, lookup-delete key read rest d, eq_iff e.0 key, eq_iff e.0 read, eq_iff key read)

rename_entry-lookup :
    (key value read : String) (cfg : List Entry)
    → left_alone read ≡ true
    → ("/v1" == read) ≡ false
    → lookup read (rename_entry key value cfg) ≡ lookup read cfg
unfolding rename_entry
rename_entry-lookup key value read cfg kept d = elim (Bool-cases (key == read)) [
  | inl same ↦ ground (arith, kept, eq_iff key read, same)
  | inr differs ↦ ground (
    arith,
    lookup-delete key read cfg differs,
    lookup-insert "/v1" read value (delete key cfg),
    lookup-delete key read (insert "/v1" value (delete key cfg)) differs,
    d,
  )
]

-- In whatever order the loop meets the keys, if it meets all of them then no key is left that names the core
-- group in an old way, and every other key but /v1 has the value that it had.
pub rename_loop_lem :
    (order cfg : List Entry)
    → All (λ e. elem e.0 (map (λ t. t.0) order) ≡ true) cfg
    → All (λ e. left_alone e.0 ≡ true) (rename_loop order cfg)
      × ((read : String)
          → left_alone read ≡ true
          → ("/v1" == read) ≡ false
          → lookup read (rename_loop order cfg) ≡ lookup read cfg)
unfolding rename_loop elem
rename_loop_lem order cfg met = (
  All-map (rename_loop order cfg) (λ e h. ground (arith, h))
      (rename_loop-settled order cfg (All-map cfg (λ e h. ground (arith, h)) met)),
  λ read. others order cfg read,
)
  where
    others :
        (order cfg : List Entry) (read : String)
        → left_alone read ≡ true
        → ("/v1" == read) ≡ false
        → lookup read (rename_loop order cfg) ≡ lookup read cfg
    others [] cfg read kept d = refl
    others ((key, value) ∷ rest) cfg read kept d =
        others rest (rename_entry key value cfg) read kept d
        ∙ rename_entry-lookup key value read cfg kept d
