-- ===== src/Pipeline/Decided.antt =====
-- packages/ingest/src/pipeline/persist-cursor.ts: the order of texts, and what is decided on a cursor.
use wtfoc.Prelude.{
  String, Bool, true, false, not, Option, none, some, inl, inr, [], ◌∷◌, ◌==◌, ◌≡◌, refl, or_else,
  Bool-cases, text_has_eq, arith,
}
use wtfoc.Prelude.Text.{Text, units, text_ltb}
use wtfoc.Schema.{truthy}
use wtfoc.Pipeline.Cursor.{CursorDecisionInput, decide_cursor_value}

pub text_ltb_irrefl : (s : Text) → text_ltb s s ≡ false
unfolding text_ltb
text_ltb_irrefl [] = refl
text_ltb_irrefl (c ∷ s) = ground (arith, text_ltb_irrefl s)

pub text_ltb-asym : (s t : Text) → text_ltb s t ≡ true → text_ltb t s ≡ false
unfolding text_ltb
text_ltb-asym s [] h = absurd (cc h)
text_ltb-asym [] (d ∷ t) h = refl
text_ltb-asym (c ∷ s) (d ∷ t) h = ground (arith, text_ltb-asym s t)

-- At least as late.
abbrev pub reaches : String → String → Bool
reaches t s = not (text_ltb (units t) (units s))

pub text_leb_trans :
    (s t u : Text) → text_ltb t s ≡ false → text_ltb u t ≡ false → text_ltb u s ≡ false
unfolding text_ltb
text_leb_trans [] t u h k = refl
text_leb_trans (c ∷ s) [] u h k = absurd (cc h)
text_leb_trans (c ∷ s) (d ∷ t) [] h k = absurd (cc k)
text_leb_trans (c ∷ s) (d ∷ t) (e ∷ u) h k = ground (arith, text_leb_trans s t u)

pub reaches_refl : (s : String) → reaches s s ≡ true
reaches_refl s = ground (arith, text_ltb_irrefl (units s))

pub reaches_trans : (s t u : String) → reaches t s ≡ true → reaches u t ≡ true → reaches u s ≡ true
reaches_trans s t u h k = ground (arith, text_leb_trans (units s) (units t) (units u))

-- What the decision makes of the latest time and of the cursor that was there.
pub record Decided (max_timestamp : String) (existing decided : Option String) : Type 0 where
  pub past_times : reaches (or_else decided "") max_timestamp ≡ true
  pub past_cursor :
      truthy decided ≡ true → reaches (or_else decided "") (or_else existing "") ≡ true

pub falsy_empty : (s : Option String) → truthy s ≡ false → or_else s "" ≡ ""
falsy_empty none h = refl
falsy_empty (some s) h = (text_has_eq.same_iff s "").0 (ground arith)

pub reaches-empty : (s : String) → reaches s "" ≡ true
unfolding text_ltb
reaches-empty s = refl

pub decide-Decided :
    (i : CursorDecisionInput)
    → i.is_partial_run ≡ false
    → truthy i.repo_head_sha ≡ false
    → Decided i.max_timestamp i.existing_cursor_value (decide_cursor_value i).cursor_value
unfolding decide_cursor_value
decide-Decided i full plain =
    let later = text_ltb (units i.max_timestamp) (units (or_else i.existing_cursor_value "")) in
    rw full (
      rw plain (elim (Bool-cases (i.max_timestamp == "")) [
        | inl empty ↦ rw empty (record {
          past_times = rw ((text_has_eq.same_iff i.max_timestamp "").0 empty) (reaches_refl "");
          past_cursor = λ h. absurd (cc h);
        })
        | inr filled ↦ rw filled (elim (Bool-cases (truthy i.existing_cursor_value)) [
          | inr fresh ↦ rw fresh (record {
            past_times = reaches_refl i.max_timestamp;
            past_cursor =
                λ h. rw (falsy_empty i.existing_cursor_value fresh) (reaches-empty i.max_timestamp);
          })
          | inl before ↦ rw before (elim (Bool-cases later) [
            | inl ahead ↦ rw ahead (record {
              past_times = ground (
                arith,
                text_ltb-asym (units i.max_timestamp) (units (or_else i.existing_cursor_value "")),
              );
              past_cursor = λ h. reaches_refl (or_else i.existing_cursor_value "");
            })
            | inr behind ↦ rw behind (record {
              past_times = reaches_refl i.max_timestamp;
              past_cursor = λ h. ground (arith, behind);
            })
          ])
        ])
      ]))
