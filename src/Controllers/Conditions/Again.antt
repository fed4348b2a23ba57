-- ===== src/Controllers/Conditions/Again.antt =====
-- What a second update with the same conditions does.
use vault_secrets_operator.Base.{
  ℕ, suc, ◌≡◌, ◌≢◌, refl, sym, ap, ◌∙◌, String, true, false, some, inl, inr, List, [], ◌∷◌, ◌++◌,
  arith, text_key, eq_iff, contains, contains-append, All, Bool-cases,
}
use vault_secrets_operator.Controllers.Conditions.{
  Condition, condition_key, find_condition, at_time, replace_condition, update_condition,
  update_from, update_conditions, condition_keys, update_condition-key,
}

keys-append :
    (a b : List Condition) → condition_keys (a ++ b) ≡ condition_keys a ++ condition_keys b
unfolding condition_keys
keys-append [] b = refl
keys-append (c ∷ a) b = ground (arith, keys-append a b)

append_assoc : (a b c : List Condition) → (a ++ b) ++ c ≡ a ++ (b ++ c)
append_assoc [] b c = refl
append_assoc (x ∷ a) b c = ground (arith, append_assoc a b c)

-- An update without a time of its own gets one, and is otherwise what it was.
update_condition-shape :
    (now : ℕ) (current : List Condition) (new : Condition)
    → new.last_transition_time ≡ 0
    → now ≢ 0
    → let f = update_condition now current new in
      (f ≡ at_time f.last_transition_time new) × (f.last_transition_time ≢ 0)
unfolding update_condition replace_condition
update_condition-shape now current new z n = (ground arith, ground arith)

same_key :
    (a b : Condition) → a.type ≡ b.type → a.reason ≡ b.reason → condition_key a ≡ condition_key b
unfolding condition_key
same_key a b e f = ground arith

-- What stands before, under other keys, is passed over.
find_condition-append :
    (new f : Condition) (before more : List Condition)
    → contains (condition_key new) (condition_keys before) ≡ false
    → f.type ≡ new.type
    → f.reason ≡ new.reason
    → find_condition new (before ++ (f ∷ more)) ≡ some f
unfolding find_condition condition_keys contains
find_condition-append new f [] more h e g =
    ground (arith, eq_iff f.type new.type, eq_iff f.reason new.reason)
find_condition-append new f (c ∷ before) more h e g = ground (
  arith,
  find_condition-append new f before more,
  eq_iff c.type new.type,
  eq_iff c.reason new.reason,
  same_key c new,
  eq_iff (condition_key c) (condition_key new),
)

replace_condition_same :
    (later : ℕ) (f new : Condition)
    → new.last_transition_time ≡ 0
    → f ≡ at_time f.last_transition_time new
    → f.last_transition_time ≢ 0
    → replace_condition later f new ≡ f
unfolding replace_condition
replace_condition_same later f new z e n =
    ground (arith, ap (λ (c : Condition). c.status) e, eq_iff f.status new.status)

update_condition_found :
    (later : ℕ) (again : List Condition) (f new : Condition)
    → find_condition new again ≡ some f
    → update_condition later again new ≡ replace_condition later f new
unfolding update_condition
update_condition_found later again f new h = ground arith

update_condition_again :
    (now later : ℕ) (current again : List Condition) (new : Condition)
    → new.last_transition_time ≡ 0
    → now ≢ 0
    → find_condition new again ≡ some (update_condition now current new)
    → update_condition later again new ≡ update_condition now current new
update_condition_again now later current again new z n h =
    let f = update_condition now current new in
    let (shape, set) = update_condition-shape now current new z n in
    update_condition_found later again f new h ∙ replace_condition_same later f new z shape set

module _ (now : ℕ → ℕ) (i : ℕ) (current : List Condition) (seen : List String) (new : Condition)
    (rest : List Condition) where
  update_from_skip :
      contains (condition_key new) seen ≡ true
      → update_from now i current seen (new ∷ rest) ≡ update_from now (suc i) current seen rest
  unfolding update_from
  update_from_skip e = ground arith

  update_from_add :
      contains (condition_key new) seen ≡ false
      → update_from now i current seen (new ∷ rest)
        ≡ update_condition (now i) current new
          ∷ update_from now (suc i) current (condition_key new ∷ seen) rest
  unfolding update_from
  update_from_add e = ground arith

-- The update is found where it was put.
find_condition-updated :
    (now : ℕ) (current before more : List Condition) (seen : List String) (new : Condition)
    → new.last_transition_time ≡ 0
    → now ≢ 0
    → contains (condition_key new) seen ≡ false
    → ((k : String) → contains k (condition_keys before) ≡ true → contains k seen ≡ true)
    → find_condition new (before ++ (update_condition now current new ∷ more))
      ≡ some (update_condition now current new)
find_condition-updated now current before more seen new z n e b =
    let f = update_condition now current new in
    let (shape, _) = update_condition-shape now current new z n in
    find_condition-append new f before more (ground (arith, b (condition_key new)))
      (ap (λ (c : Condition). c.type) shape) (ap (λ (c : Condition). c.reason) shape)

seen_before :
    (f : Condition) (key : String) (before : List Condition) (seen : List String) (k : String)
    → condition_key f ≡ key
    → (contains k (condition_keys before) ≡ true → contains k seen ≡ true)
    → contains k (condition_keys (before ++ (f ∷ []))) ≡ true
    → contains k (key ∷ seen) ≡ true
unfolding contains condition_keys
seen_before f key before seen k e b h = ground (
  arith,
  keys-append before (f ∷ []),
  contains-append k (condition_keys before) (condition_key f ∷ []),
)

update_from_put :
    (now later : ℕ → ℕ) (i : ℕ) (current before : List Condition) (seen : List String)
    (new : Condition) (rest : List Condition)
    → new.last_transition_time ≡ 0
    → ((j : ℕ) → now j ≢ 0)
    → ((k : String) → contains k (condition_keys before) ≡ true → contains k seen ≡ true)
    → contains (condition_key new) seen ≡ false
    → (((k : String)
          → contains k (condition_keys (before ++ (update_condition (now i) current new ∷ [])))
            ≡ true
          → contains k (condition_key new ∷ seen) ≡ true)
        → update_from later
            (suc i)
            ((before ++ (update_condition (now i) current new ∷ []))
              ++ update_from now (suc i) current (condition_key new ∷ seen) rest)
            (condition_key new ∷ seen)
            rest
          ≡ update_from now (suc i) current (condition_key new ∷ seen) rest)
    → update_from later i (before ++ update_from now i current seen (new ∷ rest)) seen (new ∷ rest)
      ≡ update_from now i current seen (new ∷ rest)
update_from_put now later i current before seen new rest z n b e step =
    let f = update_condition (now i) current new in
    let more = update_from now (suc i) current (condition_key new ∷ seen) rest in
    let added = update_from_add now i current seen new rest e in
    let head : update_condition (later i) (before ++ (f ∷ more)) new ≡ f =
      update_condition_again (now i) (later i) current (before ++ (f ∷ more)) new z (n i)
        (find_condition-updated (now i) current before more seen new z (n i) e b) in
    let tail : update_from later (suc i) (before ++ (f ∷ more)) (condition_key new ∷ seen) rest
        ≡ more =
      ap (λ l. update_from later (suc i) l (condition_key new ∷ seen) rest)
        (sym (append_assoc before (f ∷ []) more))
      ∙ step (λ k.
        seen_before f (condition_key new) before seen k (update_condition-key (now i) current new)
          (b k)) in
    ap (λ u. update_from later i (before ++ u) seen (new ∷ rest)) added
    ∙ (update_from_add later i (before ++ (f ∷ more)) seen new rest e
        ∙ (ap
              (λ c.
                c
                ∷ update_from later (suc i) (before ++ (f ∷ more)) (condition_key new ∷ seen) rest)
              head
            ∙ (ap (λ l. f ∷ l) tail ∙ sym added)))

update_from_again :
    (now later : ℕ → ℕ) (i : ℕ) (current before : List Condition) (seen : List String)
    (updates : List Condition)
    → All (λ (c : Condition). c.last_transition_time ≡ 0) updates
    → ((j : ℕ) → now j ≢ 0)
    → ((k : String) → contains k (condition_keys before) ≡ true → contains k seen ≡ true)
    → update_from later i (before ++ update_from now i current seen updates) seen updates
      ≡ update_from now i current seen updates
update_from_again now later i current before seen [] z n b = unfold update_from in refl
update_from_again now later i current before seen (new ∷ rest) (z, zs) n b =
    elim (Bool-cases (contains (condition_key new) seen)) [
      | inl e ↦
          let rec = update_from_again now later (suc i) current before seen rest zs n b in
          ap (λ u. update_from later i (before ++ u) seen (new ∷ rest))
            (update_from_skip now i current seen new rest e)
          ∙ (update_from_skip later i _ seen new rest e
              ∙ (rec ∙ sym (update_from_skip now i current seen new rest e)))
      | inr e ↦ update_from_put now later i current before seen new rest z n b e (λ b2.
          update_from_again now later (suc i) current
            (before ++ (update_condition (now i) current new ∷ [])) (condition_key new ∷ seen) rest
            zs n b2)
    ]

-- Updating again with the same conditions, at any later time, changes nothing, where the conditions
-- carry no time of their own and the clock never showed the zero time.
pub update_conditions_again :
    (now later : ℕ → ℕ) (current updates : List Condition)
    → All (λ (c : Condition). c.last_transition_time ≡ 0) updates
    → ((j : ℕ) → now j ≢ 0)
    → update_conditions later (update_conditions now current updates) updates
      ≡ update_conditions now current updates
unfolding update_conditions condition_keys contains
update_conditions_again now later current updates z n =
    update_from_again now later 0 current [] [] updates z n (λ k h. h)
