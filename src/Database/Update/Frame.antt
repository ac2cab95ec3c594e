-- ===== src/Database/Update/Frame.antt =====
-- What an update by src/update_engine.cpp leaves alone.
use bright_chain_cpp.Prelude.{
  ◌≡◌, refl, sym, ap, ◌∙◌, String, Bool, false, Option, none, some, List, [], ◌∷◌, str_eq,
  if◌then◌else◌, if_cases, ◌&&◌,
}
use bright_chain_cpp.Prelude.Map.{Map, find, put, find-put, find-erase}
use bright_chain_cpp.Json.{JsonLibrary}
use bright_chain_cpp.Database.Query.Compare.{is_array, is_object, is_number}
use bright_chain_cpp.Database.Update.{
  for_fields, set_field, unset_field, inc_field, push_field, pull_field, add_to_set_field,
  min_field, max_field, rename_field, date_field, mul_field, pop_field, field_step, apply_operators,
  apply_update, on_array, on_old_array, renamed, put_if, appended, added, without, popped,
}

abbrev names : Option String → String → Bool
names none j = false
names (some s) j = str_eq s j

module _ (lib : JsonLibrary) where
  open lib use {Json, kind, get_text, entries, array}

  -- Field `j` is not named by the fields of an operator, and not by a new name of `$rename`.
  abbrev FieldsAvoid : String → String → Map Json → Type 0
  FieldsAvoid j op [] = Unit
  FieldsAvoid j op ((k, v) ∷ m) =
      (str_eq k j ≡ false)
      × ((str_eq op "$rename" && names (get_text v) j) ≡ false)
      × FieldsAvoid j op m

  abbrev OperatorsAvoid : String → Map Json → Type 0
  OperatorsAvoid j [] = Unit
  OperatorsAvoid j ((op, fields) ∷ m) = FieldsAvoid j op (entries fields) × OperatorsAvoid j m

  abbrev pub Avoids : String → Json → Type 0
  Avoids j update = OperatorsAvoid j (entries update)

  put_other :
      (k j : String) (v : Json) (doc : Map Json)
      → str_eq k j ≡ false
      → find j (put k v doc) ≡ find j doc
  put_other k j v doc other = rw (find-put k j v doc, other) refl

  on_array-other :
      (change : List Json → List Json) (k j : String) (old : Option Json) (doc : Map Json)
      → str_eq k j ≡ false
      → find j (on_array lib change k old doc) ≡ find j doc
  unfolding on_array
  on_array-other change k j none doc other = put_other k j (array (change [])) doc other
  on_array-other change k j (some old) doc other =
      if_cases (λ m. find j m ≡ find j doc) (is_array (kind old)) _ doc
        (λ _. put_other k j _ doc other) (λ _. refl)

  on_old_array-other :
      (change : List Json → List Json) (k j : String) (old : Option Json) (doc : Map Json)
      → str_eq k j ≡ false
      → find j (on_old_array lib change k old doc) ≡ find j doc
  unfolding on_old_array
  on_old_array-other change k j none doc other = refl
  on_old_array-other change k j (some old) doc other =
      on_array-other change k j (some old) doc other

  renamed-other :
      (k j : String) (new : Option String) (old : Option Json) (doc : Map Json)
      → str_eq k j ≡ false
      → names new j ≡ false
      → find j (renamed lib k new old doc) ≡ find j doc
  unfolding renamed
  renamed-other k j none old doc other new_other = refl
  renamed-other k j (some new) none doc other new_other = refl
  renamed-other k j (some new) (some v) doc other new_other =
      rw (find-erase k j (put new v doc), other) (put_other new j v doc new_other)

  put_if-other :
      (replaces : Json → Bool) (k j : String) (v : Json) (old : Option Json) (doc : Map Json)
      → str_eq k j ≡ false
      → find j (put_if lib replaces k v old doc) ≡ find j doc
  unfolding put_if
  put_if-other replaces k j v none doc other = put_other k j v doc other
  put_if-other replaces k j v (some old) doc other =
      if_cases (λ m. find j m ≡ find j doc) (replaces old) (put k v doc) doc
        (λ _. put_other k j v doc other) (λ _. refl)

  -- The step of an operator leaves field `j` of a document alone.
  abbrev KeepsOther :
      String → String → Json → Map Json → (String → Json → Map Json → Map Json) → Type 0
  KeepsOther j k v doc step = find j (step k v doc) ≡ find j doc

  module _ (now op j k : String) (v : Json) (doc : Map Json) (other : str_eq k j ≡ false) where
    put_when : (b : Bool) (w : Json) → find j (if b then put k w doc else doc) ≡ find j doc
    put_when b w =
        if_cases (λ m. find j m ≡ find j doc) b (put k w doc) doc (λ _. put_other k j w doc other)
          (λ _. refl)

    field_step-KeepsOther :
        (str_eq op "$rename" && names (get_text v) j) ≡ false
        → KeepsOther j k v doc (field_step lib now op)
    unfolding field_step
    field_step-KeepsOther fresh =
        let P = KeepsOther j k v doc in
        if_cases P (str_eq op "$set") (set_field lib) _ (λ _. put_other k j v doc other)
          λ _.
            if_cases P (str_eq op "$unset") (unset_field lib) _
              (λ _. rw (find-erase k j doc, other) refl)
              λ _.
                if_cases P (str_eq op "$inc") (inc_field lib) _
                  (λ _. put_when (is_number (kind v)) _)
                  λ _.
                    if_cases P (str_eq op "$push") (push_field lib) _
                      (λ _. on_array-other (appended lib v) k j (find k doc) doc other)
                      λ _.
                        if_cases P (str_eq op "$pull") (pull_field lib) _
                          (λ _. on_old_array-other (without lib v) k j (find k doc) doc other)
                          λ _.
                            if_cases P (str_eq op "$addToSet") (add_to_set_field lib) _
                              (λ _. on_array-other (added lib v) k j (find k doc) doc other)
                              λ _.
                                if_cases P (str_eq op "$min") (min_field lib) _
                                  (λ _. put_if-other _ k j v (find k doc) doc other)
                                  λ _.
                                    if_cases P (str_eq op "$max") (max_field lib) _
                                      (λ _. put_if-other _ k j v (find k doc) doc other)
                                      λ _.
                                        if_cases P (str_eq op "$rename") (rename_field lib) _
                                          (λ is_rename.
                                            renamed-other k j (get_text v) (find k doc) doc other (
                                              ap (λ b. b && names (get_text v) j) (sym is_rename)
                                              ∙ fresh))
                                          λ _.
                                            if_cases P (str_eq op "$currentDate")
                                              (date_field lib now) _
                                              (λ _. put_other k j _ doc other)
                                              λ _.
                                                if_cases P (str_eq op "$mul") (mul_field lib) _
                                                  (λ _. put_when (is_number (kind v)) _)
                                                  λ _.
                                                    if_cases P (str_eq op "$pop") (pop_field lib)
                                                      (λ k v doc. doc)
                                                      (λ _.
                                                        if_cases (λ m. find j m ≡ find j doc)
                                                          (is_number (kind v)) _ doc
                                                          (λ _.
                                                            on_old_array-other
                                                            (popped lib (lib.get_int v)) k j
                                                            (find k doc) doc other)
                                                          (λ _. refl))
                                                      (λ _. refl)

  for_fields-find :
      (now op j : String) (fields doc : Map Json)
      → FieldsAvoid j op fields
      → find j (for_fields (field_step lib now op) fields doc) ≡ find j doc
  unfolding for_fields
  for_fields-find now op j [] doc h = refl
  for_fields-find now op j ((k, v) ∷ fields) doc (other, fresh, rest) =
      for_fields-find now op j fields (field_step lib now op k v doc) rest
      ∙ field_step-KeepsOther now op j k v doc other fresh

  apply_operators-find :
      (now j : String) (update doc : Map Json)
      → OperatorsAvoid j update
      → find j (apply_operators lib now update doc) ≡ find j doc
  unfolding apply_operators
  apply_operators-find now j [] doc h = refl
  apply_operators-find now j ((op, fields) ∷ update) doc (here, rest) =
      apply_operators-find now j update _ rest
      ∙ if_cases (λ m. find j m ≡ find j doc) (is_object (kind fields))
          (for_fields (field_step lib now op) (entries fields) doc) doc
          (λ _. for_fields-find now op j (entries fields) doc here) (λ _. refl)

  -- An update leaves every field alone that none of its operators names, neither as a field nor as
  -- the new name of `$rename`.
  pub apply_update-frame :
      (now j : String) (doc : Map Json) (update : Json)
      → Avoids j update
      → find j (apply_update lib now doc update) ≡ find j doc
  unfolding apply_update
  apply_update-frame now j doc update h =
      if_cases (λ m. find j m ≡ find j doc) (is_object (kind update)) _ doc
        (λ _. apply_operators-find now j (entries update) doc h) (λ _. refl)
