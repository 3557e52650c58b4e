-- ===== src/Table/Rows.antt =====
-- What statements do to a table, row by row.
use recallops.Common.{
  find_first, Bool, List, String, All, ℕ, ◌∷◌, [], inl, ◌≡◌, ◌≢◌, false, some, subst, sym, true,
  ◌⊎◌, inr, ◌≤◌, Bool-cases, refl, Option, none, some-eq, ◌∙◌, ap, arith, leb,
}
use recallops.Table.{select_first, update_where, earlier}

no_later : (x b y : ℕ) {a : ℕ} → leb x b ≡ true → b ≤ y → x ≡ a → a ≤ y
no_later x b y before le same = ground arith

not_before : (x b : ℕ) {a : ℕ} → leb x b ≡ false → b ≡ a → a ≤ x
not_before x b after same = ground arith

module _ {A : Type 0} where
  -- A row of the table.
  abbrev pub Row : A → List A → Type 0
  Row a [] = ⊥
  Row a (x ∷ xs) = (a ≡ x) ⊎ Row a xs

  -- The same rows, each related to what it was.
  abbrev pub Pointwise : (A → A → Type 0) → List A → List A → Type 0
  Pointwise R [] [] = Unit
  Pointwise R [] (y ∷ ys) = ⊥
  Pointwise R (x ∷ xs) [] = ⊥
  Pointwise R (x ∷ xs) (y ∷ ys) = R x y × Pointwise R xs ys

  -- The rows have different keys.
  abbrev pub Keyed : (A → String) → List A → Type 0
  Keyed key [] = Unit
  Keyed key (x ∷ xs) = All (λ y. key x ≢ key y) xs × Keyed key xs

  pub Pointwise-refl : (R : A → A → Type 0) → ((x : A) → R x x) → (xs : List A) → Pointwise R xs xs
  Pointwise-refl R r [] = tt
  Pointwise-refl R r (x ∷ xs) = (r x, Pointwise-refl R r xs)

  pub Pointwise-trans :
      (R : A → A → Type 0)
      → ((x y z : A) → R x y → R y z → R x z)
      → (xs ys zs : List A) → Pointwise R xs ys
      → Pointwise R ys zs
      → Pointwise R xs zs
  Pointwise-trans R t [] [] [] p q = tt
  Pointwise-trans R t [] [] (z ∷ zs) p q = q
  Pointwise-trans R t [] (y ∷ ys) zs p q = absurd p
  Pointwise-trans R t (x ∷ xs) [] zs p q = absurd p
  Pointwise-trans R t (x ∷ xs) (y ∷ ys) [] p q = absurd q
  Pointwise-trans R t (x ∷ xs) (y ∷ ys) (z ∷ zs) p q =
      (t x y z p.0 q.0, Pointwise-trans R t xs ys zs p.1 q.1)

  -- An update relates each row to itself or to its changed form.
  pub update_where-Pointwise :
      (R : A → A → Type 0)
      → ((x : A) → R x x)
      → (p : A → Bool) (f : A → A) (xs : List A) → All (λ x. p x ≡ true → R x (f x)) xs
      → Pointwise R xs (update_where p f xs).1
  update_where-Pointwise R r p f [] changes = tt
  update_where-Pointwise R r p f (x ∷ xs) changes = elim (Bool-cases (p x)) [
    | inl hit ↦ rw hit (changes.0 hit, update_where-Pointwise R r p f xs changes.1)
    | inr miss ↦ rw miss (r x, update_where-Pointwise R r p f xs changes.1)
  ]

  pub All-rows : (P : A → Type 0) → ((x : A) → P x) → (xs : List A) → All P xs
  All-rows P all [] = tt
  All-rows P all (x ∷ xs) = (all x, All-rows P all xs)

  pub All-Row : (P : A → Type 0) (xs : List A) (a : A) → All P xs → Row a xs → P a
  All-Row P [] a all row = absurd row
  All-Row P (x ∷ xs) a all (inl same) = subst P (sym same) all.0
  All-Row P (x ∷ xs) a all (inr later) = All-Row P xs a all.1 later

  -- An update that no row passes changes nothing.
  pub update_where_none :
      (p : A → Bool) (f : A → A) (xs : List A)
      → All (λ x. p x ≡ false) xs
      → update_where p f xs ≡ (0, xs)
  update_where_none p f [] all = refl
  update_where_none p f (x ∷ xs) all = rw all.0 (rw (update_where_none p f xs all.1))

  pub All-map : (P Q : A → Type 0) → ((x : A) → P x → Q x) → (xs : List A) → All P xs → All Q xs
  All-map P Q f [] all = tt
  All-map P Q f (x ∷ xs) all = (f x all.0, All-map P Q f xs all.1)

  select_first-none :
      (p : A → Bool) (key : A → ℕ) (xs : List A)
      → select_first p key xs ≡ none
      → All (λ x. p x ≡ false) xs
  select_first-none p key [] e = tt
  select_first-none p key (x ∷ xs) e = (ground arith, select_first-none p key xs (ground arith))

  abbrev Selected : (A → Bool) → (A → ℕ) → List A → A → Type 0
  Selected p key xs a = Row a xs × (p a ≡ true) × All (λ x. p x ≡ true → key a ≤ key x) xs

  Selected-cons :
      (p : A → Bool) (key : A → ℕ) (x : A) (xs : List A) (o : Option A) (a : A)
      → (o ≡ none → All (λ y. p y ≡ false) xs)
      → ((b : A) → o ≡ some b → Selected p key xs b)
      → p x ≡ true
      → earlier key x o ≡ a
      → Selected p key (x ∷ xs) a
  Selected-cons p key x xs none a nobody rest hit first = (
    inl (sym first),
    subst (λ y. p y ≡ true) first hit,
    (
      (λ _. omega (arith, ap key first)),
      All-map (λ y. p y ≡ false) (λ y. p y ≡ true → key a ≤ key y) (λ y off on. cc (off, on)) xs
          (nobody refl),
    ),
  )
  Selected-cons p key x xs (some b) a nobody rest hit first =
      let (row, passes, least) = rest b refl in
      elim (Bool-cases (leb (key x) (key b))) [
        | inl before ↦
            let same : x ≡ a = rw before at first in
            (
              inl (sym same),
              subst (λ y. p y ≡ true) same hit,
              (
                (λ _. omega (arith, ap key same)),
                All-map (λ y. p y ≡ true → key b ≤ key y) (λ y. p y ≡ true → key a ≤ key y)
                    (λ y le on. no_later (key x) (key b) (key y) before (le on) (ap key same)) xs
                    least,
              ),
            )
        | inr after ↦
            let same : b ≡ a = rw after at first in
            (
              inr (subst (λ y. Row y xs) same row),
              subst (λ y. p y ≡ true) same passes,
              (
                (λ _. not_before (key x) (key b) after (ap key same)),
                subst (λ z. All (λ y. p y ≡ true → key z ≤ key y) xs) same least,
              ),
            )
      ]

  -- What is selected is a row that passes, with the least key of those.
  pub select_first-Row :
      (p : A → Bool) (key : A → ℕ) (xs : List A) (a : A)
      → select_first p key xs ≡ some a
      → Row a xs × (p a ≡ true) × All (λ x. p x ≡ true → key a ≤ key x) xs
  select_first-Row p key [] a found = cc
  select_first-Row p key (x ∷ xs) a found = elim (Bool-cases (p x)) [
    | inl hit ↦
        Selected-cons p key x xs (select_first p key xs) a (select_first-none p key xs)
          (λ b. select_first-Row p key xs b) hit (some-eq (rw hit at found))
    | inr miss ↦
        let (row, passes, least) = select_first-Row p key xs a (rw miss at found) in
        (inr row, passes, ((λ on. cc (on, miss)), least))
  ]

  -- In a keyed table, the rows with the key of a row are that row.
  pub Keyed-Row :
      (key : A → String) (xs : List A) (a : A)
      → Keyed key xs
      → Row a xs
      → All (λ x. key x ≡ key a → x ≡ a) xs
  Keyed-Row key [] a keyed row = tt
  Keyed-Row key (x ∷ xs) a keyed (inl same) = (
    (λ _. sym same),
    All-map (λ y. key x ≢ key y) (λ y. key y ≡ key a → y ≡ a)
        (λ y differ alike. absurd (differ (sym (alike ∙ ap key same)))) xs keyed.0,
  )
  Keyed-Row key (x ∷ xs) a keyed (inr later) = (
    (λ alike. absurd (All-Row (λ y. key x ≢ key y) xs a keyed.0 later alike)),
    Keyed-Row key xs a keyed.1 later,
  )

  -- A property of the rows strengthens what relates them to what they become.
  pub Pointwise-map :
      (P : A → Type 0) (R S : A → A → Type 0)
      → ((x y : A) → P x → R x y → S x y)
      → (xs ys : List A) → All P xs
      → Pointwise R xs ys
      → Pointwise S xs ys
  Pointwise-map P R S f [] [] all rows = tt
  Pointwise-map P R S f [] (y ∷ ys) all rows = rows
  Pointwise-map P R S f (x ∷ xs) [] all rows = rows
  Pointwise-map P R S f (x ∷ xs) (y ∷ ys) all rows =
      (f x y all.0 rows.0, Pointwise-map P R S f xs ys all.1 rows.1)

  pub Pointwise-All :
      (P : A → Type 0) (R : A → A → Type 0) (Q : A → Type 0)
      → ((x y : A) → P x → R x y → Q y)
      → (xs ys : List A) → All P xs
      → Pointwise R xs ys
      → All Q ys
  Pointwise-All P R Q f [] [] all rows = tt
  Pointwise-All P R Q f [] (y ∷ ys) all rows = absurd rows
  Pointwise-All P R Q f (x ∷ xs) [] all rows = absurd rows
  Pointwise-All P R Q f (x ∷ xs) (y ∷ ys) all rows =
      (f x y all.0 rows.0, Pointwise-All P R Q f xs ys all.1 rows.1)

  -- Rows that keep their keys stay keyed.
  pub Pointwise-Keyed :
      (key : A → String) (xs ys : List A)
      → Pointwise (λ x y. key x ≡ key y) xs ys
      → Keyed key xs
      → Keyed key ys
  Pointwise-Keyed key [] [] rows keyed = tt
  Pointwise-Keyed key [] (y ∷ ys) rows keyed = absurd rows
  Pointwise-Keyed key (x ∷ xs) [] rows keyed = absurd rows
  Pointwise-Keyed key (x ∷ xs) (y ∷ ys) rows keyed = (
    Pointwise-All (λ z. key x ≢ key z) (λ z w. key z ≡ key w) (λ w. key y ≢ key w)
        (λ z w differ same alike. differ (rows.0 ∙ alike ∙ sym same)) xs ys keyed.0 rows.1,
    Pointwise-Keyed key xs ys rows.1 keyed.1,
  )

  -- What has become of a row.
  pub Pointwise-Row :
      (R : A → A → Type 0) (xs ys : List A) (a : A)
      → Pointwise R xs ys
      → Row a xs
      → (b : A) × R a b × Row b ys
  Pointwise-Row R [] ys a rows row = absurd row
  Pointwise-Row R (x ∷ xs) [] a rows row = absurd rows
  Pointwise-Row R (x ∷ xs) (y ∷ ys) a rows (inl same) =
      (y, subst (λ z. R z y) (sym same) rows.0, inl refl)
  Pointwise-Row R (x ∷ xs) (y ∷ ys) a rows (inr later) =
      let (b, related, found) = Pointwise-Row R xs ys a rows.1 later in (b, related, inr found)

module _ {A : Type 0} (key : A → String) (p : A → Bool) (f : A → A) (a : A) where
  none_other :
      (xs : List A)
      → All (λ x. key a ≢ key x) xs
      → All (λ x. p x ≡ true → key x ≡ key a) xs
      → All (λ x. p x ≡ false) xs
  none_other [] differ named = tt
  none_other (x ∷ xs) differ named = (misses (p x) refl, none_other xs differ.1 named.1)
    where
      misses : (b : Bool) → p x ≡ b → p x ≡ false
      misses true hit = absurd (differ.0 (sym (named.0 hit)))
      misses false miss = miss

  -- In a keyed table, an update of the rows with one key changes one row, if it has one.
  pub update_where_one :
      (xs : List A)
      → Keyed key xs
      → All (λ x. p x ≡ true → key x ≡ key a) xs
      → p a ≡ true
      → Row a xs
      → ((update_where p f xs).0 ≡ 1) × Row (f a) (update_where p f xs).1
  update_where_one [] keyed named hit row = absurd row
  update_where_one (x ∷ xs) keyed named hit (inl same) =
      let others =
        none_other xs (subst (λ z. All (λ y. key z ≢ key y) xs) (sym same) keyed.0) named.1 in
      rw (← same) (rw hit (rw (update_where_none p f xs others) (omega arith, inl refl)))
  update_where_one (x ∷ xs) keyed named hit (inr later) =
      let (one, found) = update_where_one xs keyed.1 named.1 hit later in
      let miss : p x ≡ false = other (p x) refl in rw miss (one, inr found)
    where
      other : (b : Bool) → p x ≡ b → p x ≡ false
      other true on = absurd (All-Row (λ y. key x ≢ key y) xs a keyed.0 later (named.0 on))
      other false off = off

module _ {A : Type 0} where
  -- An update that counts a row has changed one.
  pub update_where_some :
      (p : A → Bool) (f : A → A) (xs : List A)
      → (update_where p f xs).0 ≢ 0
      → (a : A) × Row a xs × (p a ≡ true) × Row (f a) (update_where p f xs).1
  update_where_some p f [] changed = absurd (changed refl)
  update_where_some p f (x ∷ xs) changed = elim (Bool-cases (p x)) [
    | inl hit ↦ rw hit (x, inl refl, hit, inl refl)
    | inr miss ↦
        let (a, row, on, after) = update_where_some p f xs (λ e. changed (rw miss e)) in
        rw miss (a, inr row, on, inr after)
  ]

  -- What is found first is a row.
  pub find_first-Row : (p : A → Bool) (xs : List A) (a : A) → find_first p xs ≡ some a → Row a xs
  find_first-Row p [] a found = cc
  find_first-Row p (x ∷ xs) a found = elim (Bool-cases (p x)) [
    | inl hit ↦ inl (sym (some-eq (rw hit at found)))
    | inr miss ↦ inr (find_first-Row p xs a (rw miss at found))
  ]
