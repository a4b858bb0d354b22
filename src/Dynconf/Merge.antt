-- ===== src/Dynconf/Merge.antt =====
-- app/services/dynconf.py, `_merge_mapping`: what the merge of two values is.
use stask_service.Prelude.{
  Text, text_eq, true, false, Bool, if◌then◌else◌, Option, none, some, [], ◌∷◌, ◌≡◌, refl, ap, ◌∙◌,
}
use stask_service.Policy.{Table, Entry}
use stask_service.Policy.Validate.{put_entry}
use stask_service.Dynconf.{Value, whole, switch, policies, find, put, merged, merge_values}
use stask_service.Dynconf.Writes.{first, put-find}

-- The last entry of a name; a Python dictionary has one entry of a name.
abbrev pub last_entry : Text → Table → Option Entry
last_entry name [] = none
last_entry name ((k, e) ∷ t) = first (last_entry name t) (if text_eq k name then some e else none)

-- `u` has the entries of `new`, and under all other names those of `current`.
abbrev pub IsUnion : Table → Table → Table → Type 0
IsUnion current new u =
    (name : Text) → find name u ≡ first (last_entry name new) (find name current)

-- the same of two values, where both are tables; otherwise the second one counts
abbrev pub Joined : Value → Value → Value → Type 0
Joined (policies current) (policies new) (policies u) = IsUnion current new u
Joined current new u = u ≡ new

put_entry-put : (k : Text) (e : Entry) (t : Table) → put_entry k e t ≡ put k e t
unfolding put_entry put
put_entry-put k e [] = refl
put_entry-put k e ((j, x) ∷ t) =
    ap (λ rest. if text_eq j k then (j, e) ∷ t else (j, x) ∷ rest) (put_entry-put k e t)

first-first :
    (o p q : Option Entry) (b : Bool) (e : Entry)
    → first o (if b then some e else q) ≡ first (first o (if b then some e else none)) q
first-first (some x) p q b e = refl
first-first none p q true e = refl
first-first none p q false e = refl

merged-IsUnion : (current new : Table) → IsUnion current new (merged current new)
unfolding merged
merged-IsUnion current [] name = refl
merged-IsUnion current ((k, e) ∷ new) name =
    merged-IsUnion (put_entry k e current) new name
    ∙ (rw (put_entry-put k e current, put-find k e name current)
        (first-first (last_entry name new) none (find name current) (text_eq k name) e))

pub merge_values-Joined : (current new : Value) → Joined current new (merge_values current new)
unfolding merge_values
merge_values-Joined (policies a) (policies b) = merged-IsUnion a b
merge_values-Joined (policies a) (whole n) = refl
merge_values-Joined (policies a) (switch b) = refl
merge_values-Joined (whole n) new = refl
merge_values-Joined (switch b) new = refl
