-- ===== src/Forms/Kept.antt =====
-- main.js: what the steps of `collapse_multifields` keep of the objects and the lists.
use rocketmq.Shared.{
  ◌≡◌, refl, sym, ap, subst, ◌∙◌, arith, Bool, true, false, Bool-cases, inl, inr, Option, none,
  some, List, [], ◌∷◌, ◌++◌, is_some, Text, text_eq, text_eq_iff, text_eq_refl, Dict, lookup,
  insert, lookup-insert,
}
use rocketmq.Requests.Template.{made}
use rocketmq.Forms.Fields.{Field}
use rocketmq.Forms.Collapse.{
  Item, Param, plain, flag, object, Collected, open_name, opened, started, start_list, put_in,
  put_item, push_to, push_in, push_item, place, shown_key, is_top_level, prefix_of, key_of,
}

-- Whether the list of an id is there.
abbrev has_id : Text → Option (Dict (List Item)) → Bool
has_id id none = false
has_id id (some lists) = is_some (lookup id lists)

-- Whether `id_map[name][id]` is there.
unfoldable pub has_list : Field → Collected → Bool
has_list (name, id) c = has_id id (lookup name c.lists)

-- An object and its lists are there together.
abbrev pub IsPaired : Text → Collected → Type 0
IsPaired name c = is_some (lookup name c.params) ≡ is_some (lookup name c.lists)

-- What each step keeps.
pub record Keeps (c d : Collected) : Type 0 where
  pub paired : (name : Text) → IsPaired name c → IsPaired name d
  pub listed : (f : Field) → has_list f c ≡ true → has_list f d ≡ true

pub Keeps_trans : {c d e : Collected} → Keeps c d → Keeps d e → Keeps c e
Keeps_trans k l = record {
  paired = λ name p. l.paired name (k.paired name p);
  listed = λ f h. l.listed f (k.listed f h);
}

pub Keeps_refl : (c : Collected) → Keeps c c
Keeps_refl c = record { paired = λ name p. p; listed = λ f h. h }

-- A name keeps its lists where they are replaced by others that have them.
has_id-insert :
    (name : Text) (more : Dict (List Item)) (lists : Dict (Dict (List Item)))
    → ((id : Text) → has_id id (lookup name lists) ≡ true → is_some (lookup id more) ≡ true)
    → (m id : Text) → has_id id (lookup m lists) ≡ true
    → has_id id (lookup m (insert name more lists)) ≡ true
has_id-insert name more lists kept m id h = elim (Bool-cases (text_eq name m)) [
  | inl same ↦
      rw (lookup-insert name m more lists, same)
        (kept id
          (subst (λ t. has_id id (lookup t lists) ≡ true) (sym ((text_eq_iff name m).0 same)) h))
  | inr other ↦ rw (lookup-insert name m more lists, other) h
]

-- Where an entry is put into both dictionaries, they stay paired.
insert-IsPaired :
    {V W : Type 0} (name : Text) (v : V) (w : W) (d : Dict V) (e : Dict W) (m : Text)
    → is_some (lookup m d) ≡ is_some (lookup m e)
    → is_some (lookup m (insert name v d)) ≡ is_some (lookup m (insert name w e))
insert-IsPaired name v w d e m p = elim (Bool-cases (text_eq name m)) [
  | inl same ↦ rw (lookup-insert name m v d, lookup-insert name m w e, same) refl
  | inr other ↦ rw (lookup-insert name m v d, lookup-insert name m w e, other) p
]

-- An entry that is there already can be replaced.
lookup-insert_there :
    {V : Type 0} (name : Text) (v : V) (d : Dict V) (m : Text)
    → is_some (lookup name d) ≡ true
    → is_some (lookup m (insert name v d)) ≡ is_some (lookup m d)
lookup-insert_there name v d m there = elim (Bool-cases (text_eq name m)) [
  | inl same ↦
      rw (lookup-insert name m v d, same)
        (sym (subst (λ t. is_some (lookup t d) ≡ true) ((text_eq_iff name m).0 same) there))
  | inr other ↦ rw (lookup-insert name m v d, other) refl
]

-- Once a name is opened, its lists are there.
opened-lists :
    (name : Text) (o : Option Param) (c : Collected)
    → is_some o ≡ is_some (lookup name c.lists)
    → is_some (lookup name (opened name o c).lists) ≡ true
unfolding opened
opened-lists name none c p = rw (lookup-insert name name [] c.lists, text_eq_refl name) refl
opened-lists name (some param) c p = sym p

pub open_name-lists :
    (name : Text) (c : Collected)
    → IsPaired name c
    → is_some (lookup name (open_name name c).lists) ≡ true
unfolding open_name
open_name-lists name c p = opened-lists name (lookup name c.params) c p

-- Where there are no lists, there is no list of an id.
no_lists :
    (id : Text) (o : Option (Dict (List Item)))
    → false ≡ is_some o
    → has_id id o ≡ true
    → is_some (lookup {V = List Item} id []) ≡ true
unfolding lookup
no_lists id none p h = h
no_lists id (some lists) p h = p

opened-Keeps :
    (name : Text) (o : Option Param) (c : Collected)
    → is_some o ≡ is_some (lookup name c.lists)
    → Keeps c (opened name o c)
unfolding opened has_list
opened-Keeps name none c p = record {
  paired = λ m q. insert-IsPaired name (object []) [] c.params c.lists m q;
  listed = λ f h.
      has_id-insert name [] c.lists (λ id there. no_lists id (lookup name c.lists) p there) f.0 f.1
        h;
}
opened-Keeps name (some param) c p = Keeps_refl c

pub open_name-Keeps : (name : Text) (c : Collected) → IsPaired name c → Keeps c (open_name name c)
unfolding open_name
open_name-Keeps name c p = opened-Keeps name (lookup name c.params) c p

-- New lists for a name that has some.
lists_lem :
    (name : Text) (lists more : Dict (List Item)) (c : Collected)
    → lookup name c.lists ≡ some lists
    → ((id : Text) → is_some (lookup id lists) ≡ true → is_some (lookup id more) ≡ true)
    → Keeps c (record c { lists = insert name more c.lists })
unfolding has_list
lists_lem name lists more c there kept = record {
  paired = λ m q. q ∙ sym (lookup-insert_there name more c.lists m (ap is_some there));
  listed = λ f h.
      has_id-insert name more c.lists (λ id k. kept id (subst (λ o. has_id id o ≡ true) there k))
        f.0 f.1 h;
}

insert_kept :
    (k : Text) (v : List Item) (d : Dict (List Item)) (m : Text)
    → is_some (lookup m d) ≡ true
    → is_some (lookup m (insert k v d)) ≡ true
insert_kept k v d m h = elim (Bool-cases (text_eq k m)) [
  | inl same ↦ rw (lookup-insert k m v d, same) refl
  | inr other ↦ rw (lookup-insert k m v d, other) h
]

started_lem :
    (f : Field) (o : Option (Dict (List Item))) (c : Collected)
    → lookup f.0 c.lists ≡ o
    → is_some o ≡ true
    → (d : Collected) × (started f o c ≡ made d) × Keeps c d × (has_list f d ≡ true)
unfolding started has_list
started_lem f none c e h = absurd (ground arith)
started_lem (name, id) (some lists) c e h =
    let more = insert id [] lists in
    (
      record c { lists = insert name more c.lists },
      refl,
      lists_lem name lists more c e (insert_kept id [] lists),
      rw
          (
            lookup-insert name name more c.lists,
            text_eq_refl name,
            lookup-insert id id [] lists,
            text_eq_refl id,
          )
          refl,
    )

pub start_list_lem :
    (f : Field) (c : Collected)
    → is_some (lookup f.0 c.lists) ≡ true
    → (d : Collected) × (start_list f c ≡ made d) × Keeps c d × (has_list f d ≡ true)
unfolding start_list
start_list_lem f c h = started_lem f (lookup f.0 c.lists) c refl h

put_in-Keeps :
    (name key : Text) (item : Item) (o : Option Param) (c : Collected)
    → lookup name c.params ≡ o
    → Keeps c (put_in name key item o c)
unfolding put_in has_list
put_in-Keeps name key item none c e = Keeps_refl c
put_in-Keeps name key item (some (plain v)) c e = Keeps_refl c
put_in-Keeps name key item (some (flag b)) c e = Keeps_refl c
put_in-Keeps name key item (some (object items)) c e = record {
  paired = λ m q.
      lookup-insert_there name (object (insert key item items)) c.params m (ap is_some e) ∙ q;
  listed = λ f h. h;
}

push_to_lem :
    (name prefix : Text) (item : Item) (lists : Dict (List Item)) (o : Option (List Item))
    (c : Collected)
    → lookup name c.lists ≡ some lists
    → is_some o ≡ true
    → (d : Collected) × (push_to name prefix item lists o c ≡ made d) × Keeps c d
unfolding push_to
push_to_lem name prefix item lists none c e h = absurd (ground arith)
push_to_lem name prefix item lists (some items) c e h =
    (_, refl, lists_lem name lists _ c e (insert_kept prefix (items ++ item ∷ []) lists))

push_in_lem :
    (name prefix : Text) (item : Item) (o : Option (Dict (List Item))) (c : Collected)
    → lookup name c.lists ≡ o
    → has_id prefix o ≡ true
    → (d : Collected) × (push_in name prefix item o c ≡ made d) × Keeps c d
unfolding push_in
push_in_lem name prefix item none c e h = absurd (ground arith)
push_in_lem name prefix item (some lists) c e h =
    push_to_lem name prefix item lists (lookup prefix lists) c e h

-- A value is placed where its list is there, if it is for a list.
pub place_lem :
    (form : Dict Text) (f : Field) (val : Option Item) (c : Collected)
    → (is_top_level f.1 ≡ false → has_list (f.0, prefix_of f.1) c ≡ true)
    → (d : Collected) × (place form f val c ≡ made d) × Keeps c d
unfolding place put_item push_item has_list
place_lem form f none c h = (c, refl, Keeps_refl c)
place_lem form f (some item) c h = elim (Bool-cases (is_top_level f.1)) [
  | inl top ↦ (
    _,
    rw (top) refl,
    put_in-Keeps f.0 (shown_key (key_of form f)) item (lookup f.0 c.params) c refl,
  )
  | inr nested ↦
      rw (nested) (push_in_lem f.0 (prefix_of f.1) item (lookup f.0 c.lists) c refl (h nested))
]
