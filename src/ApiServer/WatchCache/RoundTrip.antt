-- ===== src/ApiServer/WatchCache/RoundTrip.antt =====
-- server.go: sizes of watch caches that are written read back.
use Prim.Native.Nat.{◌-◌, ◌^◌, ◌≤◌}
use Prim.Native.String.{String}
use Prim.Native.String as Text
use text.Mathlib.TextLemmas.{nil-append, cons-append}
use mathlib.Core.List.{append_assoc, append-nil}
use hohapiserver.Base.{
  ℕ, ◌≡◌, refl, arith, ◌∙◌, if◌then◌else◌, Bool, true, false, inr, All, List, [], ◌∷◌, ◌++◌, ◌&&◌,
  map, ap, sym,
}
use hohapiserver.ApiServer.Ints.{ℤ, pos, negsuc}
use hohapiserver.ApiServer.Texts.{split, lacks, decimal}
use hohapiserver.ApiServer.Texts.Laws.{atoi-decimal, lacks-decimal, split-two}
use hohapiserver.ApiServer.WatchCache.{
  Resources, Sizes, put, size_of_tokens, parse_size, parse_loop, write_watch_cache_sizes,
}

-- The size is an int that is not negative.
abbrev pub InRange : ℤ → Type 0
InRange (pos n) = n ≤ 2 ^ 63 - 1
InRange (negsuc n) = ⊥

split-hash :
    (t u : String)
    → lacks 35 t ≡ true
    → lacks 35 u ≡ true
    → split 35 (Text.◌++◌ t (Text.◌++◌ "#" u)) ≡ t ∷ u ∷ []
split-hash t u ht hu = rw (cons-append "#" "" u, nil-append u) (split-two 35 "#" t u refl ht hu)

module _ {R : Type 0} (res : Resources R) where
  -- The text of the key holds no `#` and is parsed to the key.
  abbrev pub GoodKey : R → Type 0
  GoodKey r = (lacks 35 (res.text r) ≡ true) × (res.parse (res.text r) ≡ r)

  abbrev pub Good : Sizes R → Type 0
  Good = All (λ entry. GoodKey entry.0 × InRange entry.1)

  abbrev pub keys : Sizes R → List R
  keys sizes = map (λ entry. entry.0) sizes

  unfoldable pub absent : R → List R → Bool
  absent r [] = true
  absent r (key ∷ rest) = let later = absent r rest in if res.same key r then false else later

  -- No key is the same as one before it, or as one of the first list.
  unfoldable pub fresh : List R → List R → Bool
  fresh before [] = true
  fresh before (key ∷ rest) = absent key before && fresh (before ++ key ∷ []) rest

  parse_size-text :
      (r : R) (n : ℕ)
      → GoodKey r
      → n ≤ 2 ^ 63 - 1
      → parse_size res (Text.◌++◌ (res.text r) (Text.◌++◌ "#" (decimal n))) ≡ inr (r, pos n)
  unfolding parse_size size_of_tokens
  parse_size-text r n (clean, back) fits = ground (
    arith,
    split-hash (res.text r) (decimal n) clean (lacks-decimal n),
    atoi-decimal n fits,
    back,
  )

  put-absent :
      (r : R) (n : ℤ) (sizes : Sizes R)
      → absent r (keys sizes) ≡ true
      → put res r n sizes ≡ sizes ++ (r, n) ∷ []
  unfolding put absent
  put-absent r n [] h = refl
  put-absent r n (entry ∷ rest) h = ground (arith, h, put-absent r n rest)

  keys-append : (xs ys : Sizes R) → keys (xs ++ ys) ≡ keys xs ++ keys ys
  keys-append [] ys = refl
  keys-append (x ∷ xs) ys = ap (λ ks. x.0 ∷ ks) (keys-append xs ys)

  parse_loop_step :
      (c : String) (rest : List String) (sizes : Sizes R) {r : R} {n : ℤ}
      → parse_size res c ≡ inr (r, n)
      → parse_loop res (c ∷ rest) sizes ≡ parse_loop res rest (put res r n sizes)
  unfolding parse_loop
  parse_loop_step c rest sizes h = ground (arith, h)

  -- What is written is read back behind what was there.
  pub write-parse_loop :
      (sizes before : Sizes R)
      → Good sizes
      → fresh (keys before) (keys sizes) ≡ true
      → (specs : List String) × (write_watch_cache_sizes res sizes ≡ inr specs)
        × (parse_loop res specs before ≡ inr (before ++ sizes))
  unfolding fresh write_watch_cache_sizes parse_loop
  write-parse_loop [] before good f = ([], refl, ap inr (sym (append-nil before)))
  write-parse_loop ((r, negsuc n) ∷ rest) before ((key, bad), good) f = absurd bad
  write-parse_loop ((r, pos n) ∷ rest) before ((key, fits), good) f =
      let unseen : absent r (keys before) ≡ true = ground (arith, f) in
      let later : fresh (keys (before ++ (r, pos n) ∷ [])) (keys rest) ≡ true =
        rw (keys-append before ((r, pos n) ∷ [])) (ground (arith, f)) in
      let (specs, written, parsed) = write-parse_loop rest (before ++ (r, pos n) ∷ []) good later in
      (
        Text.◌++◌ (res.text r) (Text.◌++◌ "#" (decimal n)) ∷ specs,
        rw written refl,
        parse_loop_step _ specs before (parse_size-text r n key fits)
            ∙ ap (parse_loop res specs) (put-absent r (pos n) before unseen)
            ∙ parsed
            ∙ ap inr (append_assoc before ((r, pos n) ∷ []) rest),
      )
