-- ===== src/ApiServer/WatchCache.antt =====
-- server.go: ParseWatchCacheSizes and WriteWatchCacheSizes. A group resource, its text and its parsing are
-- of apimachinery.
pub mod RoundTrip
pub mod Sizes
use Prim.Native.String.{String, ◌++◌}
use hohapiserver.Base.{
  if◌then◌else◌, Bool, true, false, Option, none, some, ◌⊎◌, inl, inr, List, [], ◌∷◌,
}
use hohapiserver.ApiServer.Ints.{ℤ, pos, negsuc}
use hohapiserver.ApiServer.Texts.{split, atoi, decimal}

-- schema.GroupResource with its comparison, String and ParseGroupResource.
pub record Resources (R : Type 0) : Type 0 where
  pub same : R → R → Bool
  pub text : R → String
  pub parse : String → R

pub data SizeError : Type 0 where
  invalid_value invalid_size negative_size : String → SizeError

abbrev pub Sizes : Type 0 → Type 0
Sizes R = List (R × ℤ)

abbrev negative_error : String → ℤ → Option SizeError
negative_error c (pos n) = none
negative_error c (negsuc n) = some (negative_size c)

module _ {R : Type 0} (res : Resources R) where
  -- `sizes[resource] = size`
  unfoldable pub put : R → ℤ → Sizes R → Sizes R
  put r n [] = (r, n) ∷ []
  put r n (entry ∷ rest) =
      let kept = put r n rest in if res.same entry.0 r then (entry.0, n) ∷ rest else entry ∷ kept

  -- One round of the loop of ParseWatchCacheSizes: an error, or the key and the size.
  unfoldable pub size_of_tokens : String → List String → SizeError ⊎ (R × ℤ)
  size_of_tokens c (name ∷ number ∷ []) = elim (atoi number) [
    | none ↦ inl (invalid_size c)
    | some size ↦ elim (negative_error c size) [
      | some e ↦ inl e
      | none ↦ inr (res.parse name, size)
    ]
  ]
  size_of_tokens c _ = inl (invalid_value c)

  unfoldable pub parse_size : String → SizeError ⊎ (R × ℤ)
  parse_size c = size_of_tokens c (split 35 c)

  unfoldable pub parse_loop : List String → Sizes R → SizeError ⊎ Sizes R
  parse_loop [] sizes = inr sizes
  parse_loop (c ∷ rest) sizes = elim (parse_size c) [
    | inl e ↦ inl e
    | inr entry ↦ parse_loop rest (put entry.0 entry.1 sizes)
  ]

  -- ParseWatchCacheSizes
  unfoldable pub parse_watch_cache_sizes : List String → SizeError ⊎ Sizes R
  parse_watch_cache_sizes specs = parse_loop specs []

  -- WriteWatchCacheSizes, over the entries in the order that the map gives; an error names the resource.
  unfoldable pub write_watch_cache_sizes : Sizes R → SizeError ⊎ List String
  write_watch_cache_sizes [] = inr []
  write_watch_cache_sizes ((r, negsuc n) ∷ rest) = inl (negative_size (res.text r))
  write_watch_cache_sizes ((r, pos n) ∷ rest) = elim (write_watch_cache_sizes rest) [
    | inl e ↦ inl e
    | inr specs ↦ inr ((res.text r ++ ("#" ++ decimal n)) ∷ specs)
  ]

  -- The loop of Complete that overrides the defaults.
  unfoldable pub override : Sizes R → Sizes R → Sizes R
  override [] sizes = sizes
  override ((r, n) ∷ rest) sizes = override rest (put r n sizes)
