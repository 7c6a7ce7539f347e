-- ===== src/Store/Conflicts.antt =====
-- packages/store/src/manifest/local.ts: a head that was written is not overwritten unread.
use wtfoc.Prelude.{
  String, true, false, Option, none, some, inl, inr, ◌≡◌, ◌≢◌, refl, sym, ap, ◌∙◌, Bool-cases,
  ==_iff, ==_refl, ==-false, text_has_eq,
}
use wtfoc.Prelude.Dict
use wtfoc.Prelude.Dict.{Dict, get-set}
use wtfoc.Store.Heads.{
  NameError, StoredHead, Codec, conflict, PutResult, stored, refused, validate_collection_name,
  head_of, get_head, head_id_of, same_id, write_head, put_head,
}

same_id_iff : (a b : Option String) → same_id a b ≡ true → a ≡ b
same_id_iff none none h = refl
same_id_iff none (some b) h = absurd (cc h)
same_id_iff (some a) none h = absurd (cc h)
same_id_iff (some a) (some b) h = ap some ((==_iff a b).0 h)

-- What a write leads to.
pub record Put {H : Type 0} (c : Codec H) (files files' : Dict String String) (name : String)
    (other : H) (prev : Option String) (h : StoredHead H) : Type 0 where
  pub found : get_head c files' name ≡ some h
  pub was : prev ≡ head_id_of (get_head c files name)
  pub guarded :
      put_head c files' name other prev ≡ (files', refused (conflict prev (some h.head_id)))
  pub elsewhere : (j : String) → name ≢ j → Dict.get j files' ≡ Dict.get j files

-- What stands behind a write that was not refused.
record Written {H : Type 0} (c : Codec H) (files : Dict String String) (name : String) (m : H)
    (prev : Option String) (h : StoredHead H) : Type 0 where
  fresh : prev ≡ head_id_of (get_head c files name)
  valid : validate_collection_name name ≡ none
  head : h ≡ record { head_id = c.sha (c.serialize m); manifest = m }
  files_after : (put_head c files name m prev).0 ≡ Dict.set name (c.serialize m) files

stored_head : {H : Type 0} → StoredHead H → PutResult H → StoredHead H
stored_head h (stored k) = k
stored_head h (refused e) = h

write_head-Written :
    {H : Type 0} (c : Codec H) (files : Dict String String) (name : String) (m : H)
    (prev : Option String) (h : StoredHead H) (v : Option NameError)
    → validate_collection_name name ≡ v
    → same_id prev (head_id_of (get_head c files name)) ≡ true
    → (write_head c files name m v).1 ≡ stored h
    → Written c files name m prev h
unfolding put_head stored_head
write_head-Written c files name m prev h none e s p = record {
  fresh = same_id_iff prev (head_id_of (get_head c files name)) s;
  valid = e;
  head = sym (ap (stored_head h) p);
  files_after = rw s (rw e refl);
}
write_head-Written c files name m prev h (some bad) e s p = absurd (cc p)

put_head-Written :
    {H : Type 0} (c : Codec H) (files : Dict String String) (name : String) (m : H)
    (prev : Option String) (h : StoredHead H)
    → (put_head c files name m prev).1 ≡ stored h
    → Written c files name m prev h
unfolding put_head
put_head-Written c files name m prev h p =
    elim (Bool-cases (same_id prev (head_id_of (get_head c files name)))) [
      | inl same ↦
          write_head-Written c files name m prev h (validate_collection_name name) refl same
            (rw same at p)
      | inr other ↦ absurd (cc (rw other at p))
    ]

put_head-refused :
    {H : Type 0} (c : Codec H) (files : Dict String String) (name : String) (m : H)
    (prev : Option String) (h : StoredHead H)
    → get_head c files name ≡ some h
    → prev ≢ some h.head_id
    → put_head c files name m prev ≡ (files, refused (conflict prev (some h.head_id)))
unfolding put_head
put_head-refused c files name m prev h found new =
    let stale : same_id prev (some h.head_id) ≡ false =
      elim (Bool-cases (same_id prev (some h.head_id))) [
        | inl same ↦ absurd (new (same_id_iff prev (some h.head_id) same))
        | inr other ↦ other
      ] in
    rw found (rw stale refl)

get_head-valid :
    {H : Type 0} (c : Codec H) (files : Dict String String) (name text : String) (m : H)
    → validate_collection_name name ≡ none
    → Dict.get name files ≡ some text
    → c.parse text ≡ some m
    → get_head c files name ≡ some (record { head_id = c.sha text; manifest = m })
unfolding get_head
get_head-valid c files name text m valid there back =
    rw (get_head, valid) (rw there (rw (head_of, back) refl))

-- If a manifest is written over a head, and the text of a manifest is parsed back, then the head that is found
-- is the new one, a second write that was made from the head before is refused with a conflict, unless
-- the new head has the id of the old one, and no other project changes.
pub put_head-Put :
    {H : Type 0} (c : Codec H) (files : Dict String String) (name : String) (m other : H)
    (prev : Option String) (h : StoredHead H)
    → (put_head c files name m prev).1 ≡ stored h
    → c.parse (c.serialize m) ≡ some m
    → prev ≢ some h.head_id
    → Put c files (put_head c files name m prev).0 name other prev h
put_head-Put c files name m other prev h p back new =
    let w = put_head-Written c files name m prev h p in
    let there : Dict.get name (Dict.set name (c.serialize m) files) ≡ some (c.serialize m) =
      get-set name name (c.serialize m) files ∙ rw (==_refl name) refl in
    let found : get_head c (put_head c files name m prev).0 name ≡ some h = rw w.files_after (
      get_head-valid c (Dict.set name (c.serialize m) files) name (c.serialize m) m w.valid there
        back
      ∙ ap some (sym w.head)) in
    record {
      found = found;
      was = w.fresh;
      guarded = put_head-refused c (put_head c files name m prev).0 name other prev h found new;
      elsewhere = λ j d.
          rw w.files_after (get-set j name (c.serialize m) files ∙ rw (==-false name j d) refl);
    }
