-- ===== src/Prefs/CookieText.antt =====
-- prefs.js: reading the cookie back.
use rocketmq.Shared.{
  ℕ, false, some, List, [], ◌∷◌, ◌++◌, ◌≡◌, ◌≢◌, refl, sym, ap, ◌∙◌, arith, map, append_assoc,
  append-nil, Text, codes, text_eq, text_eq_iff, Dict, insert, join, split, trim, Lacks, All,
  All-append, All-weaken, split-join, split-of-Lacks, split-append, trim-of-IsSolid, is_space,
}
use rocketmq.Uri.Encoded.{IsUnit}
use rocketmq.Prefs.Escape.{escape, is_kept}
use rocketmq.Prefs.Codec.{unescape-escape, IsCookieChar, escape-IsCookieChar}
use rocketmq.Prefs.Hash.{IsLowHex}
use rocketmq.Prefs.Cookie.{
  find_cookie, get_cookie, parse_items, parse_text, encode_entry, encode_dict,
}

-- An entry that a cookie can keep.
abbrev pub IsEntry : Text × Text → Type 0
IsEntry (k, v) = All IsLowHex k × All IsUnit v

-- No key occurs twice.
abbrev pub IsDistinct : Dict Text → Type 0
IsDistinct [] = Unit
IsDistinct ((k, v) ∷ d) = All (λ e. text_eq k e.0 ≡ false) d × IsDistinct d

-- A character of an encoded dictionary: none that ends a cookie.
abbrev IsCookieText : ℕ → Type 0
IsCookieText c = (is_space c ≡ false) × ((c ≢ b';') × (c ≢ b'='))

hex-IsCookieText : (c : ℕ) → IsLowHex c → IsCookieText c
unfolding is_space
hex-IsCookieText c h = ground arith

char-IsCookieText : (c : ℕ) → IsCookieChar c → IsCookieText c
unfolding is_space is_kept
char-IsCookieText c h = ground arith

encode_entry-IsCookieText : (e : Text × Text) → IsEntry e → All IsCookieText (encode_entry e)
unfolding encode_entry is_space
encode_entry-IsCookieText (k, v) (hk, hv) =
    All-append IsCookieText k (b':' ∷ escape v) (All-weaken hex-IsCookieText k hk)
      (ground arith, All-weaken char-IsCookieText (escape v) (escape-IsCookieChar v hv))

encode_entry-Lacks : (e : Text × Text) → IsEntry e → Lacks b'|' (encode_entry e)
unfolding encode_entry is_kept
encode_entry-Lacks (k, v) (hk, hv) =
    All-append (λ x. x ≢ b'|') k (b':' ∷ escape v) (All-weaken (λ c h. ground arith) k hk)
      (ground arith, All-weaken (λ c h. ground arith) (escape v) (escape-IsCookieChar v hv))

insert-fresh :
    (k v : Text) (d : Dict Text)
    → All (λ e. text_eq e.0 k ≡ false) d
    → insert k v d ≡ d ++ ((k, v) ∷ [])
unfolding insert
insert-fresh k v [] h = refl
insert-fresh k v ((j, w) ∷ d) (p, h) = rw (p) (ap (λ r. (j, w) ∷ r) (insert-fresh k v d h))

text_eq-sym : (s t : Text) → text_eq s t ≡ false → text_eq t s ≡ false
text_eq-sym s t h = ground (arith, text_eq_iff s t, text_eq_iff t s)

-- The keys of `acc` are none of those of the other one.
abbrev IsApart : Dict Text → Dict Text → Type 0
IsApart acc d = All (λ e. All (λ f. text_eq f.0 e.0 ≡ false) acc) d

IsApart-snoc :
    (acc d : Dict Text) (k v : Text)
    → IsApart acc d
    → All (λ e. text_eq k e.0 ≡ false) d
    → IsApart (acc ++ ((k, v) ∷ [])) d
IsApart-snoc acc [] k v h g = tt
IsApart-snoc acc (e ∷ d) k v (p, h) (q, g) = (
  All-append (λ f. text_eq f.0 e.0 ≡ false) acc ((k, v) ∷ []) p (q, tt),
  IsApart-snoc acc d k v h g,
)

split-encode_entry :
    (k v : Text) → IsEntry (k, v) → split b':' (encode_entry (k, v)) ≡ k ∷ escape v ∷ []
unfolding encode_entry is_kept
split-encode_entry k v (hk, hv) =
    split-append b':' k (escape v) (All-weaken (λ c h. ground arith) k hk)
    ∙ ap (λ parts. k ∷ parts)
        (split-of-Lacks b':' (escape v)
          (All-weaken (λ c h. ground arith) (escape v) (escape-IsCookieChar v hv)))

parse_items-map :
    (d acc : Dict Text)
    → All IsEntry d
    → IsDistinct d
    → IsApart acc d
    → parse_items (map encode_entry d) acc ≡ acc ++ d
unfolding parse_items
parse_items-map [] acc h g a = sym (append-nil acc)
parse_items-map ((k, v) ∷ d) acc (p, h) (q, g) (a, b) =
    rw
      (
        split-encode_entry k v p,
        unescape-escape v p.1,
        insert-fresh k v acc a,
        parse_items-map d (acc ++ ((k, v) ∷ [])) h g (IsApart-snoc acc d k v b q),
        parse_items,
      )
      (append_assoc acc ((k, v) ∷ []) d)

IsApart-nil : (d : Dict Text) → IsApart [] d
IsApart-nil [] = tt
IsApart-nil (e ∷ d) = (tt, IsApart-nil d)

map-Lacks : (d : Dict Text) → All IsEntry d → All (Lacks b'|') (map encode_entry d)
map-Lacks [] h = tt
map-Lacks (e ∷ d) (p, h) = (encode_entry-Lacks e p, map-Lacks d h)

-- A dictionary that a cookie can keep.
abbrev pub IsCookieDict : Dict Text → Type 0
IsCookieDict d = All IsEntry d × IsDistinct d

-- The text of a dictionary with an entry is not empty.
parse_text-of-cons :
    (c : Text) (items : List Text)
    → c ≢ []
    → split b'|' c ≡ items
    → parse_text c ≡ parse_items items []
unfolding parse_text
parse_text-of-cons [] items h e = absurd (h refl)
parse_text-of-cons (a ∷ c) items h e = rw (e) refl

colon_text : (k s : Text) → k ++ (b':' ∷ s) ≢ []
colon_text [] s = ground arith
colon_text (c ∷ k) s = ground arith

append-ne-nil : (s t : Text) → s ≢ [] → s ++ t ≢ []
append-ne-nil [] t h = absurd (h refl)
append-ne-nil (c ∷ s) t h = ground arith

encode_dict-ne-nil : (e : Text × Text) (d : Dict Text) → encode_dict (e ∷ d) ≢ []
unfolding encode_dict encode_entry join
encode_dict-ne-nil (k, v) [] = colon_text k (escape v)
encode_dict-ne-nil (k, v) (f ∷ d) = append-ne-nil (encode_entry (k, v)) _ (colon_text k (escape v))

-- A dictionary whose keys are distinct texts of lower-case hexadecimal digits and whose values are texts
-- of UTF-16 code units is read back from the cookie text written for it.
pub parse_text-encode_dict : (d : Dict Text) → IsCookieDict d → parse_text (encode_dict d) ≡ d
unfolding encode_dict parse_text join
parse_text-encode_dict [] h = refl
parse_text-encode_dict (e ∷ d) (h, g) =
    parse_text-of-cons (encode_dict (e ∷ d)) (map encode_entry (e ∷ d)) (encode_dict-ne-nil e d)
      (split-join b'|' (encode_entry e) (map encode_entry d) (map-Lacks (e ∷ d) h))
    ∙ parse_items-map (e ∷ d) [] h g (IsApart-nil (e ∷ d))

join-IsCookieText : (d : Dict Text) → All IsEntry d → All IsCookieText (encode_dict d)
unfolding encode_dict join is_space
join-IsCookieText [] h = tt
join-IsCookieText (e ∷ []) (p, h) = encode_entry-IsCookieText e p
join-IsCookieText (e ∷ f ∷ d) (p, h) =
    All-append IsCookieText (encode_entry e) (b'|' ∷ encode_dict (f ∷ d))
      (encode_entry-IsCookieText e p) (ground arith, join-IsCookieText (f ∷ d) h)

-- `get_cookie` finds the text of the cookie `m` where it is the only one.
pub get_cookie-of-dict :
    (d : Dict Text)
    → All IsEntry d
    → get_cookie (codes "m") (codes "m=" ++ encode_dict d) ≡ some (encode_dict d)
unfolding get_cookie find_cookie is_space text_eq
get_cookie-of-dict d h =
    let text = join-IsCookieText d h in
    let whole = codes "m=" ++ encode_dict d in
    let one : split b';' whole ≡ whole ∷ [] =
      split-of-Lacks b';' whole
        (ground arith, (ground arith, All-weaken (λ c k. k.1.0) (encode_dict d) text)) in
    let solid : trim whole ≡ whole =
      trim-of-IsSolid whole (refl, (refl, All-weaken (λ c k. k.0) (encode_dict d) text)) in
    let two : split b'=' whole ≡ codes "m" ∷ encode_dict d ∷ [] =
      split-append b'=' (codes "m") (encode_dict d) (ground arith, tt)
      ∙ ap (λ parts. codes "m" ∷ parts)
          (split-of-Lacks b'=' (encode_dict d) (All-weaken (λ c k. k.1.1) (encode_dict d) text)) in
    rw (one, solid, two, find_cookie) refl
