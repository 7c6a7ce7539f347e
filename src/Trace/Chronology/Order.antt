-- ===== src/Trace/Chronology/Order.antt =====
-- packages/search/src/trace/chronology.ts: the timeline is in the order of time.
use wtfoc.Prelude.{
  ℕ, suc, ◌+◌, String, Bool, true, false, not, ◌&&◌, Option, none, some, List, [], ◌∷◌, ◌++◌, ◌≡◌,
  refl, ap, ◌∙◌, leb, nat_beq, map, all, get_elem?, is_some, number_has_eq, arith,
}
use wtfoc.Prelude.Sorting.{sort, sorted, sorted-sort, all-sort}
use wtfoc.Trace.{TraceHop}
use wtfoc.Trace.Chronology.{
  Dated, parse_hop_timestamp_ms, Split, put, split_hops, earlier, build_chronological_hop_indices,
}

abbrev time_of_found : (String → Option ℕ) → Option TraceHop → Option ℕ
time_of_found parse none = none
time_of_found parse (some h) = parse_hop_timestamp_ms parse h.chunk.timestamp

-- The time of the hop at an index.
abbrev pub time_of : (String → Option ℕ) → List TraceHop → ℕ → Option ℕ
time_of parse hops i = time_of_found parse (get_elem? hops i)

-- A hop without a time may come last, and of two times the smaller one comes first.
abbrev pub may_precede : Option ℕ → Option ℕ → Bool
may_precede x none = true
may_precede none (some b) = false
may_precede (some a) (some b) = leb a b

-- Every index may precede all that follow it.
abbrev pub in_order : (ℕ → Option ℕ) → List ℕ → Bool
in_order times [] = true
in_order times (i ∷ is) = all (λ j. may_precede (times i) (times j)) is && in_order times is

abbrev has_time : Option ℕ → ℕ → Bool
has_time none ms = false
has_time (some a) ms = nat_beq a ms

abbrev timed : (ℕ → Option ℕ) → Dated → Bool
timed times d = has_time (times d.i) d.ms

abbrev untimed : (ℕ → Option ℕ) → ℕ → Bool
untimed times i = not (is_some (times i))

record Right (times : ℕ → Option ℕ) (s : Split) : Type 0 where
  dated_right : all (timed times) s.dated ≡ true
  undated_right : all (untimed times) s.undated ≡ true

timed_first :
    (times : ℕ → Option ℕ) (d : Dated) (ds : List Dated)
    → timed times d ≡ true
    → all (timed times) ds ≡ true
    → all (timed times) (d ∷ ds) ≡ true
timed_first times d ds h k = ground (arith, h, k)

put-Right :
    (times : ℕ → Option ℕ) (i : ℕ) (o : Option ℕ) (s : Split)
    → times i ≡ o
    → Right times s
    → Right times (put i o s)
put-Right times i none s e r = record {
  dated_right = r.dated_right;
  undated_right = rw e (r.undated_right);
}
put-Right times i (some ms) s e r = record {
  dated_right =
      timed_first times (record { i = i; ms = ms }) s.dated (rw e (ground arith)) r.dated_right;
  undated_right = r.undated_right;
}

split_hops-Right :
    (parse : String → Option ℕ) (times : ℕ → Option ℕ) (i : ℕ) (hs : List TraceHop)
    → ((k : ℕ) → times (i + k) ≡ time_of parse hs k)
    → Right times (split_hops parse i hs)
unfolding split_hops
split_hops-Right parse times i [] at = record { dated_right = refl; undated_right = refl }
split_hops-Right parse times i (h ∷ hs) at =
    put-Right times i (parse_hop_timestamp_ms parse h.chunk.timestamp) (split_hops parse (suc i) hs)
      (ap times {x = i} {y = i + 0} (omega arith) ∙ at 0)
      (split_hops-Right parse times (suc i) hs
        (λ k. ap times {x = suc i + k} {y = i + suc k} (omega arith) ∙ at (suc k)))

all-untimed :
    (times : ℕ → Option ℕ) (x : Option ℕ) (us : List ℕ)
    → all (untimed times) us ≡ true
    → all (λ j. may_precede x (times j)) us ≡ true
all-untimed times x [] h = refl
all-untimed times x (u ∷ us) h = ground (arith, all-untimed times x us)

in_order-untimed :
    (times : ℕ → Option ℕ) (us : List ℕ) → all (untimed times) us ≡ true → in_order times us ≡ true
in_order-untimed times [] h = refl
in_order-untimed times (u ∷ us) h =
    ground (arith, in_order-untimed times us, all-untimed times (times u) us)

all-timed :
    (times : ℕ → Option ℕ) (d : Dated) (ds : List Dated) (us : List ℕ)
    → timed times d ≡ true
    → all (λ y. not (earlier y d)) ds ≡ true
    → all (timed times) ds ≡ true
    → all (untimed times) us ≡ true
    → all (λ j. may_precede (times d.i) (times j)) (map (λ e. e.i) ds ++ us) ≡ true
all-timed times d [] us t s a u = all-untimed times (times d.i) us u
all-timed times d (e ∷ ds) us t s a u = ground (arith, all-timed times d ds us, t, s, a, u)

in_order-timed :
    (times : ℕ → Option ℕ) (ds : List Dated) (us : List ℕ)
    → sorted earlier ds ≡ true
    → all (timed times) ds ≡ true
    → all (untimed times) us ≡ true
    → in_order times (map (λ e. e.i) ds ++ us) ≡ true
in_order-timed times [] us s a u = in_order-untimed times us u
in_order-timed times (d ∷ ds) us s a u =
    ground (arith, in_order-timed times ds us, all-timed times d ds us, s, a, u)

earlier-asym : (a b : Dated) → earlier a b ≡ true → earlier b a ≡ false
earlier-asym a b h = ground arith

earlier-negtrans : (a b c : Dated) → earlier a b ≡ false → earlier b c ≡ false → earlier a c ≡ false
earlier-negtrans a b c h k = ground arith

-- Along the chronological indices the times never go back, and every hop without a readable timestamp
-- comes behind all hops that have one.
pub build_chronological_hop_indices-in_order :
    (parse : String → Option ℕ) (hops : List TraceHop)
    → in_order (time_of parse hops) (build_chronological_hop_indices parse hops) ≡ true
unfolding build_chronological_hop_indices
build_chronological_hop_indices-in_order parse hops =
    let s = split_hops parse 0 hops in
    let r =
      split_hops-Right parse (time_of parse hops) 0 hops
        (λ k. ap (time_of parse hops) {x = 0 + k} {y = k} (omega arith)) in
    in_order-timed (time_of parse hops) (sort earlier s.dated) s.undated
      (sorted-sort earlier earlier-asym earlier-negtrans s.dated)
      (all-sort earlier (timed (time_of parse hops)) s.dated ∙ r.dated_right) r.undated_right
