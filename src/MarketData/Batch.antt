-- ===== src/MarketData/Batch.antt =====
-- The prices of several symbols at once are those of each alone.
use trading_strands.Prelude.{
  ℕ, String, ◌≡◌, refl, sym, ap, ◌∙◌, true, false, Bool, Bool-cases, not, ◌&&◌, ◌||◌, ◌==◌, Option,
  none, some, List, [], ◌∷◌, ◌++◌, arith, contains, if◌then◌else◌, is_some, Option-cases, inl, inr,
  eq_iff,
}
use trading_strands.Prelude.Int.{ℤ}
use trading_strands.Prelude.Dict.{Dict, get, put, get-put}
use trading_strands.MarketData.Store.{MarketDataStore}
use trading_strands.MarketData.Provider.{
  prices_from, read_fresh, get_price, Reads, from_store, get_prices,
}

-- the first price, or else the second
abbrev first_of : Option ℤ → Option ℤ → Option ℤ
first_of none q = q
first_of (some p) q = some p

contains-append :
    (xs : List String) (y x : String) → contains (xs ++ y ∷ []) x ≡ (contains xs x || y == x)
contains-append [] y x = ground arith
contains-append (z ∷ xs) y x = ground (arith, contains-append xs y x)

get-prices_from :
    (quote : String → Option ℤ) (prices : Dict ℤ) (ss : List String) (x : String)
    → get (prices_from quote prices ss) x
      ≡ (if contains ss x then first_of (quote x) (get prices x) else get prices x)
unfolding prices_from
get-prices_from quote prices [] x = refl
get-prices_from quote prices (s ∷ ss) x = elim (Option-cases (quote s)) [
  | inl n ↦ ground (arith, n, get-prices_from quote prices ss x, eq_iff s x)
  | inr (p, e) ↦
      ground
        (arith, e, get-prices_from quote (put prices s p) ss x, get-put prices s x p, eq_iff s x)
]

module _ (reads : Reads) (s : MarketDataStore) (staleness now : ℕ) where
  -- The read of the store raises for one of the symbols.
  pub some_raises : List String → Bool
  some_raises [] = false
  some_raises (y ∷ syms) = not (is_some (read_fresh reads s staleness now y)) || some_raises syms

  -- What the store has for a symbol.
  found : String → Option ℤ
  found y = elim (read_fresh reads s staleness now y) [ none ↦ none | some cached ↦ cached ]

  -- The first loop where no read raises.
  collect : Dict ℤ → List String → List String → Dict ℤ × List String
  collect prices misses [] = (prices, misses)
  collect prices misses (y ∷ syms) = elim (found y) [
    | none ↦ collect prices (misses ++ y ∷ []) syms
    | some p ↦ collect (put prices y p) misses syms
  ]

  from_store-collect :
      (prices : Dict ℤ) (misses syms : List String)
      → from_store reads s staleness now prices misses syms
        ≡ (if some_raises syms then none else some (collect prices misses syms))
  unfolding from_store some_raises collect found
  from_store-collect prices misses [] = refl
  from_store-collect prices misses (y ∷ syms) =
      elim (Option-cases (read_fresh reads s staleness now y)) [
        | inl n ↦ ground (arith, n)
        | inr (none, e) ↦ ground (arith, e, from_store-collect prices (misses ++ y ∷ []) syms)
        | inr (some p, e) ↦ ground (arith, e, from_store-collect (put prices y p) misses syms)
      ]

  readable :
      (syms : List String) (x : String)
      → some_raises syms ≡ false
      → contains syms x ≡ true
      → is_some (read_fresh reads s staleness now x) ≡ true
  unfolding some_raises
  readable [] x h c = ground arith
  readable (y ∷ syms) x h c = elim (Bool-cases (y == x)) [
    | inl e ↦
        ap (λ z. is_some (read_fresh reads s staleness now z)) (sym ((eq_iff y x).0 e))
        ∙ ground (arith, h)
    | inr n ↦ readable syms x (ground (arith, h)) (ground (arith, n, c))
  ]

  get_price-found :
      (quote : String → Option ℤ) (x : String)
      → is_some (read_fresh reads s staleness now x) ≡ true
      → get_price reads s staleness now quote x ≡ first_of (found x) (quote x)
  unfolding get_price found
  get_price-found quote x h = elim (Option-cases (read_fresh reads s staleness now x)) [
    | inl n ↦ ground (arith, n, h)
    | inr (none, e) ↦ ground (arith, e)
    | inr (some p, e) ↦ ground (arith, e)
  ]

  get-collect :
      (prices : Dict ℤ) (misses syms : List String) (x : String)
      → get (collect prices misses syms).0 x
        ≡ (if contains syms x then first_of (found x) (get prices x) else get prices x)
  unfolding collect
  get-collect prices misses [] x = refl
  get-collect prices misses (y ∷ syms) x = elim (Option-cases (found y)) [
    | inl n ↦ ground (arith, n, get-collect prices (misses ++ y ∷ []) syms x, eq_iff y x)
    | inr (p, e) ↦
        ground
          (arith, e, get-collect (put prices y p) misses syms x, get-put prices y x p, eq_iff y x)
  ]

  misses-collect :
      (prices : Dict ℤ) (misses syms : List String) (x : String)
      → contains (collect prices misses syms).1 x
        ≡ (contains misses x || (contains syms x && not (is_some (found x))))
  unfolding collect
  misses-collect prices misses [] x = ground arith
  misses-collect prices misses (y ∷ syms) x = elim (Option-cases (found y)) [
    | inl n ↦ ground (
      arith,
      n,
      misses-collect prices (misses ++ y ∷ []) syms x,
      contains-append misses y x,
      eq_iff y x,
    )
    | inr (p, e) ↦ ground (arith, e, misses-collect (put prices y p) misses syms x, eq_iff y x)
  ]

  get-batch :
      (quote : String → Option ℤ) (syms : List String) (x : String)
      → let (prices, misses) = collect [] [] syms in
        get (prices_from quote prices misses) x
        ≡ (if contains syms x then first_of (found x) (quote x) else none)
  unfolding get
  get-batch quote syms x =
      let (prices, misses) = collect [] [] syms in
      let a = get-prices_from quote prices misses x in
      let b = get-collect [] [] syms x in
      let c = misses-collect [] [] syms x in
      elim (Option-cases (found x)) [
        | inl n ↦ ground (arith, a, b, c, n)
        | inr (p, e) ↦ ground (arith, a, b, c, e)
      ]

  get_prices-collect :
      (quote : String → Option ℤ) (syms : List String)
      → let (prices, misses) = collect [] [] syms in
        get_prices reads s staleness now quote syms
        ≡ (if some_raises syms then none else some (prices_from quote prices misses))
  unfolding get_prices
  get_prices-collect quote syms = elim (Bool-cases (some_raises syms)) [
    | inl y ↦ ground (arith, from_store-collect [] [] syms, y)
    | inr n ↦ ground (arith, from_store-collect [] [] syms, n)
  ]

  -- What a batch gives: an exception if a read of the store raises for one of the symbols; otherwise
  -- a dictionary, which has for each symbol what a single call gives and nothing else.
  abbrev pub IsBatch : (String → Option ℤ) → List String → String → Option (Dict ℤ) → Type 0
  IsBatch quote syms x none = some_raises syms ≡ true
  IsBatch quote syms x (some prices) =
      (some_raises syms ≡ false)
      × (get prices x ≡ (if contains syms x then get_price reads s staleness now quote x else none))

  -- A batch raises exactly if the read of the store raises for one of the symbols. Otherwise it gives
  -- for each symbol that is asked for what a single call gives, nothing where the broker fails or has no
  -- price, and no other symbol: a symbol that the broker cannot price takes no price from the others.
  pub get-get_prices :
      (quote : String → Option ℤ) (syms : List String) (x : String)
      → IsBatch quote syms x (get_prices reads s staleness now quote syms)
  get-get_prices quote syms x = elim (Bool-cases (some_raises syms)) [
    | inl y ↦ rw (get_prices-collect quote syms, y) y
    | inr n ↦
        let single =
          λ (c : contains syms x ≡ true). get_price-found quote x (readable syms x n c) in
        rw (get_prices-collect quote syms, n)
          (
            n,
            get-batch quote syms x ∙ elim (Bool-cases (contains syms x)) [
              | inl c ↦ rw c (sym (single c))
              | inr c ↦ rw c refl
            ],
          )
  ]
