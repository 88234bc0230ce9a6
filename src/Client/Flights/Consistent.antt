-- ===== src/Client/Flights/Consistent.antt =====
-- The map of promises and the requests under way agree, whatever begins and ends.
use nodejs_basics.Prelude.{
  ℕ, ◌≤◌, Bool, true, false, Option, none, some, List, [], ◌∷◌, ◌≡◌, refl, sym, ◌∙◌, ap, arith,
  nat_key, ◌==◌, ==_iff, Eq, lookup, insert, erase, lookup-insert, lookup-erase, Bool-cases,
  Option-cases, inl, inr,
}
use nodejs_basics.Prelude.Texts.{Text, text_key, text_beq, text_beq_iff}
use nodejs_basics.Client.Flights.{
  Flight, Flights, no_flights, begin, settle, Event, begins, settles, step, run, landed,
  join_or_launch, launch_alone, unregistered,
}

-- A promise of the map is under way and registered there, one that is registered is in the map, and
-- the next number is new.
pub record IsConsistent (s : Flights) : Type 0 where
  pub listed :
      (id : ℕ) (f : Flight) (k : Text)
      → lookup id s.under_way ≡ some f
      → f.registered ≡ some k
      → lookup k s.inflight ≡ some id
  pub flying :
      (k : Text) (id : ℕ)
      → lookup k s.inflight ≡ some id
      → (f : Flight) × (lookup id s.under_way ≡ some f)
        × (f.registered ≡ some k)
        × (f.wanted ≡ some k)
  pub unused : (id : ℕ) → s.next ≤ id → lookup id s.under_way ≡ none

-- Reading an updated map by the test on the keys.
insert_hit {ℓ κ} :
    {K : Type ℓ} ⦃e : Eq K⦄ {V : Type κ} (k j : K) (v : V) (m : List (K × V))
    → e.beq k j ≡ true
    → lookup j (insert k v m) ≡ some v
insert_hit k j v m h = rw (lookup-insert, h) refl

insert_miss {ℓ κ} :
    {K : Type ℓ} ⦃e : Eq K⦄ {V : Type κ} (k j : K) (v : V) (m : List (K × V))
    → e.beq k j ≡ false
    → lookup j (insert k v m) ≡ lookup j m
insert_miss k j v m h = rw (lookup-insert, h) refl

erase_miss {ℓ κ} :
    {K : Type ℓ} ⦃e : Eq K⦄ {V : Type κ} (k j : K) (m : List (K × V))
    → e.beq k j ≡ false
    → lookup j (erase k m) ≡ lookup j m
erase_miss k j m h = rw (lookup-erase, h) refl

erase-some {ℓ κ} :
    {K : Type ℓ} ⦃e : Eq K⦄ {V : Type κ} (k j : K) (m : List (K × V)) (v : V)
    → lookup j (erase k m) ≡ some v
    → (e.beq k j ≡ false) × (lookup j m ≡ some v)
erase-some ⦃e⦄ k j m v h = elim (Bool-cases (e.beq k j)) [
  | inl hit ↦ let bad : none ≡ some v = rw (lookup-erase, hit) at h in absurd (cc)
  | inr miss ↦ (miss, sym (erase_miss k j m miss) ∙ h)
]

launch_alone-IsConsistent :
    (wanted : Option Text) (s : Flights) → IsConsistent s → IsConsistent (launch_alone wanted s).1
launch_alone-IsConsistent wanted s c =
    let new : Flight = record { registered = none; wanted = wanted } in
    record {
      listed = λ id f k l r. elim (Bool-cases (s.next == id)) [
        | inl hit ↦
            let same = sym (insert_hit s.next id new s.under_way hit) ∙ l in
            absurd (ground (arith, same, r))
        | inr miss ↦ c.listed id f k (sym (insert_miss s.next id new s.under_way miss) ∙ l) r
      ];
      flying = λ k id l.
          let (f, here, r, w) = c.flying k id l in
          elim (Bool-cases (s.next == id)) [
            | inl hit ↦ absurd (ground (arith, c.unused id, here))
            | inr miss ↦ (f, insert_miss s.next id new s.under_way miss ∙ here, r, w)
          ];
      unused =
          λ id h. insert_miss s.next id new s.under_way (ground arith) ∙ c.unused id (omega arith);
    }

join_or_launch-IsConsistent :
    (k : Text) (o : Option ℕ) (s : Flights)
    → lookup k s.inflight ≡ o
    → IsConsistent s
    → IsConsistent (join_or_launch k o s).1
join_or_launch-IsConsistent k (some id) s q c = c
join_or_launch-IsConsistent k none s q c =
    let new : Flight = record { registered = some k; wanted = some k } in
    record {
      listed = λ id f j l r. elim (Bool-cases (s.next == id)) [
        | inl hit ↦
            let same = sym (insert_hit s.next id new s.under_way hit) ∙ l in
            let key : k ≡ j = cc in
            let number : s.next ≡ id = (==_iff s.next id).0 hit in
            insert_hit k j s.next s.inflight ((text_beq_iff k j).1 key) ∙ ap some number
        | inr miss ↦
            let old = c.listed id f j (sym (insert_miss s.next id new s.under_way miss) ∙ l) r in
            let other : text_beq k j ≡ false = elim (Bool-cases (text_beq k j)) [
              | inl hit ↦ let key = (text_beq_iff k j).0 hit in absurd (cc)
              | inr miss ↦ miss
            ] in
            insert_miss k j s.next s.inflight other ∙ old
      ];
      flying = λ j id l. elim (Bool-cases (text_beq k j)) [
        | inl hit ↦
            let key : k ≡ j = (text_beq_iff k j).0 hit in
            let number = sym (insert_hit k j s.next s.inflight hit) ∙ l in
            (
              new,
              insert_hit s.next id new s.under_way (ground (arith, number)),
              ap some key,
              ap some key,
            )
        | inr miss ↦
            let (f, here, r, w) =
              c.flying j id (sym (insert_miss k j s.next s.inflight miss) ∙ l) in
            let old : (s.next == id) ≡ false = ground (arith, c.unused id, here) in
            (f, insert_miss s.next id new s.under_way old ∙ here, r, w)
      ];
      unused =
          λ id h. insert_miss s.next id new s.under_way (ground arith) ∙ c.unused id (omega arith);
    }

begin-IsConsistent :
    (coalesce : Bool) (wanted : Option Text) (s : Flights)
    → IsConsistent s
    → IsConsistent (begin coalesce wanted s).1
unfolding begin
begin-IsConsistent coalesce none s c = launch_alone-IsConsistent none s c
begin-IsConsistent false (some k) s c = launch_alone-IsConsistent (some k) s c
begin-IsConsistent true (some k) s c = join_or_launch-IsConsistent k (lookup k s.inflight) s refl c

abbrev without : ℕ → Option Text → Flights → Flights
without id registered s = record {
  inflight = unregistered registered s.inflight;
  under_way = erase id s.under_way;
  next = s.next;
}

without-IsConsistent :
    (id : ℕ) (mine : Flight) (registered : Option Text) (s : Flights)
    → lookup id s.under_way ≡ some mine
    → mine.registered ≡ registered
    → IsConsistent s
    → IsConsistent (without id registered s)
without-IsConsistent id mine none s q m c = record {
  listed = λ i f k l r. let (other, old) = erase-some id i s.under_way f l in c.listed i f k old r;
  flying = λ k i l.
      let (f, here, r, w) = c.flying k i l in
      let other : (id == i) ≡ false = elim (Bool-cases (id == i)) [
        | inl hit ↦
            let same : id ≡ i = (==_iff id i).0 hit in
            let flight : some mine ≡ some f = cc in absurd (cc)
        | inr miss ↦ miss
      ] in
      (f, erase_miss id i s.under_way other ∙ here, r, w);
  unused = λ i h. elim (Option-cases (lookup i (erase id s.under_way))) [
    | inl gone ↦ gone
    | inr (f, l) ↦
        let (other, old) = erase-some id i s.under_way f l in
        absurd (ground (arith, c.unused i h, old))
  ];
}
without-IsConsistent id mine (some k) s q m c = record {
  listed = λ i f j l r.
      let (other, old) = erase-some id i s.under_way f l in
      let own = c.listed id mine k q m in
      let his = c.listed i f j old r in
      let keys : text_beq k j ≡ false = elim (Bool-cases (text_beq k j)) [
        | inl hit ↦
            let key : k ≡ j = (text_beq_iff k j).0 hit in
            let number : some id ≡ some i = cc in absurd (ground (arith, number, other))
        | inr miss ↦ miss
      ] in
      erase_miss k j s.inflight keys ∙ his;
  flying = λ j i l.
      let (miss, old) = erase-some k j s.inflight i l in
      let (f, here, r, w) = c.flying j i old in
      let other : (id == i) ≡ false = elim (Bool-cases (id == i)) [
        | inl hit ↦
            let same : id ≡ i = (==_iff id i).0 hit in
            let key : some k ≡ some j = cc in absurd (ground (arith, text_beq_iff k j, key, miss))
        | inr miss ↦ miss
      ] in
      (f, erase_miss id i s.under_way other ∙ here, r, w);
  unused = λ i h. elim (Option-cases (lookup i (erase id s.under_way))) [
    | inl gone ↦ gone
    | inr (f, l) ↦
        let (other, old) = erase-some id i s.under_way f l in
        absurd (ground (arith, c.unused i h, old))
  ];
}

landed-IsConsistent :
    (id : ℕ) (o : Option Flight) (s : Flights)
    → lookup id s.under_way ≡ o
    → IsConsistent s
    → IsConsistent (landed id o s)
landed-IsConsistent id none s q c = c
landed-IsConsistent id (some mine) s q c = without-IsConsistent id mine mine.registered s q refl c

step-IsConsistent :
    (coalesce : Bool) (e : Event) (s : Flights) → IsConsistent s → IsConsistent (step coalesce e s)
unfolding settle step begin
step-IsConsistent coalesce (begins wanted) s c = begin-IsConsistent coalesce wanted s c
step-IsConsistent coalesce (settles id) s c =
    landed-IsConsistent id (lookup id s.under_way) s refl c

pub run-IsConsistent :
    (coalesce : Bool) (es : List Event) (s : Flights)
    → IsConsistent s
    → IsConsistent (run coalesce es s)
run-IsConsistent coalesce [] s c = c
run-IsConsistent coalesce (e ∷ es) s c =
    run-IsConsistent coalesce es (step coalesce e s) (step-IsConsistent coalesce e s c)

pub no_flights-IsConsistent : IsConsistent no_flights
unfolding lookup
no_flights-IsConsistent = record {
  listed = λ id f k l r. absurd (cc);
  flying = λ k id l. absurd (cc);
  unused = λ id h. refl;
}
