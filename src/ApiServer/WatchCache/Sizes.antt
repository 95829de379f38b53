-- ===== src/ApiServer/WatchCache/Sizes.antt =====
-- server.go: the watch cache sizes that Complete leaves behind.
use Prim.Native.String.{String}
use hohapiserver.Base.{
  ◌≡◌, refl, arith, true, false, inl, inr, All, Bool-cases, Option-cases, sum_cases, List, [], ◌∷◌,
  ◌++◌,
}
use hohapiserver.ApiServer.Ints.{ℤ, pos, negsuc}
use hohapiserver.ApiServer.Texts.{split, lacks, atoi}
use hohapiserver.ApiServer.Texts.Laws.{atoi-le, split-All}
use hohapiserver.ApiServer.WatchCache.{
  Resources, Sizes, put, size_of_tokens, parse_size, parse_loop, parse_watch_cache_sizes,
  write_watch_cache_sizes, override,
}
use hohapiserver.ApiServer.WatchCache.RoundTrip.{
  InRange, GoodKey, Good, keys, absent, fresh, write-parse_loop,
}

module _ {R : Type 0} (res : Resources R) where
  put-Good :
      (r : R) (n : ℤ) (sizes : Sizes R)
      → GoodKey res r
      → InRange n
      → Good res sizes
      → Good res (put res r n sizes)
  unfolding put
  put-Good r n [] key fits good = ((key, fits), tt)
  put-Good r n (entry ∷ rest) key fits ((key', fits'), good) =
      elim (Bool-cases (res.same entry.0 r)) [
        | inl same ↦ rw same ((key', fits), good)
        | inr differs ↦ rw differs ((key', fits'), put-Good r n rest key fits good)
      ]

  absent-snoc :
      (r e : R) (before : List R)
      → absent res r before ≡ true
      → res.same e r ≡ false
      → absent res r (before ++ e ∷ []) ≡ true
  unfolding absent
  absent-snoc r e [] h d = rw d refl
  absent-snoc r e (key ∷ rest) h d = ground (arith, h, d, absent-snoc r e rest)

  put-fresh :
      (r : R) (n : ℤ) (before : List R) (sizes : Sizes R)
      → fresh res before (keys res sizes) ≡ true
      → absent res r before ≡ true
      → fresh res before (keys res (put res r n sizes)) ≡ true
  unfolding put fresh
  put-fresh r n before [] f h = rw h refl
  put-fresh r n before (entry ∷ rest) f h = elim (Bool-cases (res.same entry.0 r)) [
    | inl same ↦ rw same f
    | inr differs ↦ rw differs (
        ground (
          arith,
          f,
          absent-snoc r entry.0 before h differs,
          put-fresh r n (before ++ entry.0 ∷ []) rest,
        ))
  ]

  -- The key is in the domain of the parser, whose answers are good keys.
  abbrev pub Parses : Type 0
  Parses = (s : String) → lacks 35 s ≡ true → GoodKey res (res.parse s)

  size_of_tokens-Good :
      (c : String) (tokens : List String) (r : R) (n : ℤ)
      → Parses
      → All (λ token. lacks 35 token ≡ true) tokens
      → size_of_tokens res c tokens ≡ inr (r, n)
      → GoodKey res r × InRange n
  unfolding size_of_tokens
  size_of_tokens-Good c [] r n parses clean h = cc
  size_of_tokens-Good c (a ∷ []) r n parses clean h = cc
  size_of_tokens-Good c (a ∷ b ∷ d ∷ more) r n parses clean h = cc
  size_of_tokens-Good c (name ∷ number ∷ []) r n parses (clean, _) h =
      elim (Option-cases (atoi number)) [
        | inl q ↦ ground (arith, h, q)
        | inr (negsuc m, q) ↦ ground (arith, h, q)
        | inr (pos m, q) ↦
            let (key, size) : (res.parse name ≡ r) × (pos m ≡ n) =
              (ground (arith, h, q), ground (arith, h, q)) in
            (rw⁻¹ key (parses name clean), rw⁻¹ size (atoi-le number m q))
      ]

  parse_size-Good :
      (c : String) (r : R) (n : ℤ)
      → Parses
      → parse_size res c ≡ inr (r, n)
      → GoodKey res r × InRange n
  unfolding parse_size
  parse_size-Good c r n parses h = size_of_tokens-Good c (split 35 c) r n parses (split-All 35 c) h

  parse_loop-Good :
      (specs : List String) (sizes sizes' : Sizes R)
      → Parses
      → parse_loop res specs sizes ≡ inr sizes'
      → Good res sizes
      → fresh res [] (keys res sizes) ≡ true
      → Good res sizes' × (fresh res [] (keys res sizes') ≡ true)
  unfolding parse_loop absent
  parse_loop-Good [] sizes sizes' parses h good f = (ground (arith, h, good), ground (arith, h, f))
  parse_loop-Good (c ∷ rest) sizes sizes' parses h good f = elim (sum_cases (parse_size res c)) [
    | inl (e, q) ↦ ground (arith, h, q)
    | inr (entry, q) ↦
        let (r, n) = entry in
        let (key, fits) = parse_size-Good c r n parses q in
        parse_loop-Good rest (put res r n sizes) sizes' parses (ground (arith, h, q))
          (put-Good r n sizes key fits good) (put-fresh r n [] sizes f refl)
  ]

  override-Good :
      (user sizes : Sizes R)
      → Good res user
      → Good res sizes
      → fresh res [] (keys res sizes) ≡ true
      → Good res (override res user sizes)
        × (fresh res [] (keys res (override res user sizes)) ≡ true)
  unfolding override absent
  override-Good [] sizes _ good f = (good, f)
  override-Good ((r, n) ∷ rest) sizes ((key, fits), user) good f =
      override-Good rest (put res r n sizes) user (put-Good r n sizes key fits good)
        (put-fresh r n [] sizes f refl)

  -- If the given sizes are parsed, over defaults that are in range and have good and different keys, then the
  -- sizes that are written for the defaults with the given ones over them are read back as just these.
  pub override-RoundTrip :
      (specs : List String) (user defaults : Sizes R)
      → Parses
      → Good res defaults
      → fresh res [] (keys res defaults) ≡ true
      → parse_watch_cache_sizes res specs ≡ inr user
      → (written : List String) × (write_watch_cache_sizes res (override res user defaults)
          ≡ inr written)
        × (parse_watch_cache_sizes res written ≡ inr (override res user defaults))
  unfolding parse_watch_cache_sizes fresh
  override-RoundTrip specs user defaults parses good f h =
      let (user_good, _) = parse_loop-Good specs [] user parses h tt refl in
      let (all_good, all_fresh) = override-Good user defaults user_good good f in
      write-parse_loop res (override res user defaults) [] all_good all_fresh
