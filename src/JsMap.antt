-- ===== src/JsMap.antt =====
-- The `Map` of the language: keys compared by `===`, entries in the order of first insertion, a
-- write to a present key in place. An entry list holds each key once.
use montlok_terminal.Prelude.{
  ◌+◌, ◌≡◌, refl, Bool, false, ◌||◌, List, [], ◌∷◌, Option, none, some, arith, Eq, ◌==◌,
  if◌then◌else◌, All, is_some, length, includes, Distinct, inl, inr, Bool-cases, Option-cases,
}

module _ {ℓ κ} {K : Type ℓ} {V : Type κ} ⦃e : Eq K⦄ where
  abbrev pub get : List (K × V) → K → Option V
  get [] k = none
  get ((j, v) ∷ m) k = if j == k then some v else get m k

  abbrev pub has : List (K × V) → K → Bool
  has m k = is_some (get m k)

  unfoldable pub set : List (K × V) → K → V → List (K × V)
  set [] k v = (k, v) ∷ []
  set ((j, w) ∷ m) k v = if j == k then (j, v) ∷ m else (j, w) ∷ set m k v

  unfoldable pub delete : List (K × V) → K → List (K × V)
  delete [] k = []
  delete ((j, w) ∷ m) k = if j == k then m else (j, w) ∷ delete m k

  -- `for (const [k, v] of from) into.set(k, v)`, and `new Map(from)` where `into` is empty
  unfoldable pub set_all : List (K × V) → List (K × V) → List (K × V)
  set_all into [] = into
  set_all into ((k, v) ∷ from) = set_all (set into k v) from

  abbrev pub keys : List (K × V) → List K
  keys [] = []
  keys ((k, v) ∷ m) = k ∷ keys m

  pub get-set :
      (m : List (K × V)) (k : K) (v : V) (j : K)
      → get (set m k v) j ≡ (if k == j then some v else get m j)
  unfolding set
  get-set [] k v j = refl
  get-set ((i, w) ∷ m) k v j =
      ground (arith, e.beq_iff i k, e.beq_iff k j, e.beq_iff i j, get-set m k v j)

  pub get-set_self : (m : List (K × V)) (k : K) (v : V) → get (set m k v) k ≡ some v
  get-set_self m k v = ground (arith, get-set m k v k, e.beq_iff k k)

  pub has-includes : (m : List (K × V)) (k : K) → has m k ≡ includes (keys m) k
  has-includes [] k = refl
  has-includes ((j, v) ∷ m) k = ground (arith, has-includes m k)

  -- A write adds one entry exactly when the key is new.
  pub length-set :
      (m : List (K × V)) (k : K) (v : V)
      → length (set m k v) ≡ (if has m k then length m else length m + 1)
  unfolding set
  length-set [] k v = refl
  length-set ((j, w) ∷ m) k v = ground (arith, length-set m k v)

  pub includes-keys-set :
      (m : List (K × V)) (k : K) (v : V) (j : K)
      → includes (keys (set m k v)) j ≡ (k == j || includes (keys m) j)
  unfolding set
  includes-keys-set [] k v j = refl
  includes-keys-set ((i, w) ∷ m) k v j =
      ground (arith, e.beq_iff i k, e.beq_iff k j, e.beq_iff i j, includes-keys-set m k v j)

  pub Distinct-keys-set :
      (m : List (K × V)) (k : K) (v : V) → Distinct (keys m) → Distinct (keys (set m k v))
  unfolding set
  Distinct-keys-set [] k v d = (refl, tt)
  Distinct-keys-set ((j, w) ∷ m) k v d = elim (Bool-cases (j == k)) [
    | inl p ↦ rw p d
    | inr p ↦ rw p (
      ground (arith, includes-keys-set m k v j, e.beq_iff k j, e.beq_iff j k),
      Distinct-keys-set m k v d.1,
    )
  ]

  pub length-delete_head :
      (k : K) (v : V) (m : List (K × V)) → length (delete ((k, v) ∷ m) k) ≡ length m
  unfolding delete
  length-delete_head k v m = ground (arith, e.beq_iff k k)

  -- Merged entries win, the last of a key first.
  pub get-set_all_absent :
      (m from : List (K × V)) (j : K)
      → includes (keys from) j ≡ false
      → get (set_all m from) j ≡ get m j
  unfolding set_all
  get-set_all_absent m [] j h = refl
  get-set_all_absent m ((k, v) ∷ from) j h =
      ground (arith, get-set_all_absent (set m k v) from j, get-set m k v j)

  pub get-set_all :
      (m from : List (K × V)) (j : K)
      → Distinct (keys from)
      → get (set_all m from) j ≡ (if has from j then get from j else get m j)
  unfolding set_all
  get-set_all m [] j d = refl
  get-set_all m ((k, v) ∷ from) j d = ground (
    arith,
    get-set_all (set m k v) from j d.1,
    get-set m k v j,
    has-includes from j,
    e.beq_iff k j,
  )

  pub Distinct-keys-set_all :
      (m from : List (K × V)) → Distinct (keys m) → Distinct (keys (set_all m from))
  unfolding set_all
  Distinct-keys-set_all m [] d = d
  Distinct-keys-set_all m ((k, v) ∷ from) d =
      Distinct-keys-set_all (set m k v) from (Distinct-keys-set m k v d)

  pub get-delete_other :
      (m : List (K × V)) (k j : K) → (k == j) ≡ false → get (delete m k) j ≡ get m j
  unfolding delete
  get-delete_other [] k j h = refl
  get-delete_other ((i, w) ∷ m) k j h =
      ground (arith, e.beq_iff i k, e.beq_iff i j, e.beq_iff k j, get-delete_other m k j h)

  get_absent : (m : List (K × V)) (k : K) → includes (keys m) k ≡ false → get m k ≡ none
  get_absent m k h = ground (arith, h, has-includes m k, Option-cases (get m k))

  pub get-delete_self : (m : List (K × V)) (k : K) → Distinct (keys m) → get (delete m k) k ≡ none
  unfolding delete
  get-delete_self [] k d = refl
  get-delete_self ((j, w) ∷ m) k d =
      ground (arith, e.beq_iff j k, get_absent m k, get-delete_self m k d.1, d.0)

  includes-keys-delete :
      (m : List (K × V)) (k j : K)
      → includes (keys m) j ≡ false
      → includes (keys (delete m k)) j ≡ false
  unfolding delete
  includes-keys-delete [] k j h = refl
  includes-keys-delete ((i, w) ∷ m) k j h = ground (arith, includes-keys-delete m k j)

  pub Distinct-keys-delete :
      (m : List (K × V)) (k : K) → Distinct (keys m) → Distinct (keys (delete m k))
  unfolding delete
  Distinct-keys-delete [] k d = tt
  Distinct-keys-delete ((j, w) ∷ m) k d =
      ground (arith, d, includes-keys-delete m k j, Distinct-keys-delete m k d.1)

  All-head_absent :
      (k : K) (v : V) (m : List (K × V)) (rest : List (K × V))
      → includes (keys rest) k ≡ false
      → All (λ x. get m x.0 ≡ some x.1) rest
      → All (λ x. get ((k, v) ∷ m) x.0 ≡ some x.1) rest
  All-head_absent k v m [] h a = tt
  All-head_absent k v m ((j, w) ∷ rest) h a = (
    ground (arith, a.0, h, e.beq_iff k j, e.beq_iff j k),
    All-head_absent k v m rest (ground (arith, h)) a.1,
  )

  -- Each entry is what a read of its key gives.
  pub entries-get : (m : List (K × V)) → Distinct (keys m) → All (λ x. get m x.0 ≡ some x.1) m
  entries-get [] d = tt
  entries-get ((k, v) ∷ m) d =
      (ground (arith, e.beq_iff k k), All-head_absent k v m m d.0 (entries-get m d.1))
