-- ===== src/Outbox/Deliver/Closing.antt =====
-- Messages that are delivered and messages that are not, as a table evolves: src/recallops/outbox.py.
use recallops.Workflow.Snapshot.{Time}
use recallops.Outbox.{Message}
use recallops.Common.{
  List, ◌≡◌, none, arith, string_eq, some, refl, false, ◌∷◌, [], ◌∙◌, sym, subst, ◌≢◌, Option, ap,
  inl, inr,
}
use recallops.Outbox.Evolution.{WellFormed, Evolves, is_open}
use recallops.Table.Rows.{Row, Pointwise, Pointwise-Row, Keyed-Row, All-Row}

-- A row of this message, not delivered.
abbrev pub Undelivered : List Message → Message → Type 0
Undelivered rows m =
    (x : Message) × Row x rows × (x.id ≡ m.id) × (x.payload ≡ m.payload) × (x.delivered_at ≡ none)

-- A row of this message, delivered.
abbrev pub Delivered : List Message → Message → Type 0
Delivered rows m =
    (x : Message) × Row x rows × (x.id ≡ m.id) × (x.payload ≡ m.payload) × (x.delivered_at ≢ none)

closed : (x : Message) → x.delivered_at ≢ none → is_open x ≡ false
unfolding is_open
closed x done = delivered_closed x.delivered_at refl
  where
    delivered_closed : (o : Option Time) → x.delivered_at ≡ o → is_open x ≡ false
    delivered_closed none is = absurd (done is)
    delivered_closed (some t) is = ground arith

-- An undelivered row was undelivered before.
Evolves-undelivered : (x y : Message) → Evolves x y → y.delivered_at ≡ none → x.delivered_at ≡ none
Evolves-undelivered x y evolves undelivered = before x.delivered_at refl
  where
    before : (o : Option Time) → x.delivered_at ≡ o → x.delivered_at ≡ none
    before none is = is
    before (some t) is =
        ap (λ (z : Message). z.delivered_at)
          (sym (evolves.closed_stays (closed x (λ e. cc (e, is)))))
        ∙ undelivered

Row-Pointwise :
    (R : Message → Message → Type 0) (xs ys : List Message) (b : Message)
    → Pointwise R xs ys
    → Row b ys
    → (a : Message) × R a b × Row a xs
Row-Pointwise R [] [] b rows row = absurd row
Row-Pointwise R [] (y ∷ ys) b rows row = absurd rows
Row-Pointwise R (x ∷ xs) [] b rows row = absurd row
Row-Pointwise R (x ∷ xs) (y ∷ ys) b rows (inl same) =
    (x, subst (λ z. R x z) (sym same) rows.0, inl refl)
Row-Pointwise R (x ∷ xs) (y ∷ ys) b rows (inr later) =
    let (a, related, found) = Row-Pointwise R xs ys b rows.1 later in (a, related, inr found)

module _ (rows rows' : List Message) (evolve : Pointwise Evolves rows rows') (m : Message) where
  pub Undelivered-before : Undelivered rows' m → Undelivered rows m
  Undelivered-before (y, row, same, payload, open_row) =
      let (x, evolves, found) = Row-Pointwise Evolves rows rows' y evolve row in
      (
        x,
        found,
        sym evolves.same_id ∙ same,
        sym evolves.same_payload.0 ∙ payload,
        Evolves-undelivered x y evolves open_row,
      )

  pub Delivered-after : Delivered rows m → Delivered rows' m
  Delivered-after (x, row, same, payload, done) =
      let (y, evolves, found) = Pointwise-Row Evolves rows rows' x evolve row in
      let stays : y ≡ x = evolves.closed_stays (closed x done) in
      (x, subst (λ z. Row z rows') stays found, same, payload, done)

-- A delivered message is not one that is still to be delivered.
pub Delivered-differ :
    (rows : List Message) (m m' : Message)
    → WellFormed rows
    → Delivered rows m
    → Undelivered rows m'
    → m.id ≢ m'.id
Delivered-differ rows m m' wf (x, row, same, payload, done) (y, row', same', payload', open_row)
      alike =
    let one : x ≡ y =
      All-Row (λ z. z.id ≡ y.id → z ≡ y) rows x
        (Keyed-Row (λ (z : Message). z.id) rows y wf.distinct row') row
        (same ∙ alike ∙ sym same') in
    done (ap (λ (z : Message). z.delivered_at) one ∙ open_row)
