-- ===== src/States/Nodes.antt =====
-- formatters.js: what `fmt_vhost_state` says of the nodes of a virtual host.
use rocketmq.Shared.{
  ◌+◌, Bool, true, false, [], ◌∷◌, ◌++◌, ◌≡◌, refl, sym, ◌∙◌, arith, Text, codes, Dict, text_eq,
  join, any, filter, keys, append_assoc, append-nil, ◌==◌, Bool-cases, inl, inr, if◌then◌else◌,
}
use rocketmq.States.{Tally, tally, fmt_state, fmt_vhost_state, is_down, green, red, yellow}

abbrev down_entry : Text × Text → Bool
down_entry entry = is_down entry.1

abbrev running_entry : Text × Text → Bool
running_entry entry = if is_down entry.1 then false else text_eq entry.1 (codes "running")

-- What the state of a virtual host should say: red where a node is down and none runs, yellow with the
-- names of the nodes that are down where another one runs, else green.
unfoldable pub vhost_verdict : Dict Text → Text
vhost_verdict cluster_state =
    if any down_entry cluster_state
    then (if any running_entry cluster_state
        then fmt_state yellow (codes "partial") (
            codes "Vhost supervisor is stopped on some cluster nodes: "
            ++ join (codes ", ") (keys (filter down_entry cluster_state)))
        else fmt_state red (codes "stopped") (codes "Vhost supervisor is not running."))
    else fmt_state green (codes "running") []

record IsTallied (d : Dict Text) (t u : Tally) : Type 0 where
  down : u.down_nodes ≡ t.down_nodes ++ keys (filter down_entry d)
  ok : (u.ok_count == 0) ≡ (if any running_entry d then false else t.ok_count == 0)
  non_ok : (u.non_ok_count == 0) ≡ (if any down_entry d then false else t.non_ok_count == 0)

tally-IsTallied : (d : Dict Text) (t : Tally) → IsTallied d t (tally d t)
unfolding tally keys
tally-IsTallied [] t = record { down = sym (append-nil t.down_nodes); ok = refl; non_ok = refl }
tally-IsTallied ((node, state) ∷ d) t = elim (Bool-cases (is_down state)) [
  | inl e ↦
      let h =
        tally-IsTallied d (record t {
          non_ok_count = t.non_ok_count + 1;
          down_nodes = t.down_nodes ++ node ∷ [];
        }) in
      record {
        down =
            rw (e, tally)
              (h.down ∙ append_assoc t.down_nodes (node ∷ []) (keys (filter down_entry d)));
        ok = rw (e, tally) h.ok;
        non_ok = rw (e, tally) (ground (arith, h.non_ok));
      }
  | inr e ↦ elim (Bool-cases (text_eq state (codes "running"))) [
    | inl r ↦
        let h = tally-IsTallied d (record t { ok_count = t.ok_count + 1 }) in
        record {
          down = rw (e, r, tally) h.down;
          ok = rw (e, r, tally) (ground (arith, h.ok));
          non_ok = rw (e, r, tally) h.non_ok;
        }
    | inr r ↦
        let h = tally-IsTallied d t in
        record {
          down = rw (e, r, tally) h.down;
          ok = rw (e, r, tally) h.ok;
          non_ok = rw (e, r, tally) h.non_ok;
        }
  ]
]

-- The tests of the source and those of the verdict choose the same text.
if_swap :
    (down running : Bool) (g r y : Text)
    → (if (if down then false else true)
        then g
        else if (if running then false else true)
        then r
        else y)
      ≡ (if down then (if running then y else r) else g)
if_swap true true g r y = refl
if_swap true false g r y = refl
if_swap false running g r y = refl

-- The counts of `fmt_vhost_state` choose what the nodes call for: red where a node is down and none runs,
-- yellow with the names of the nodes that are down where another one runs, else green.
pub fmt_vhost_state-eq-vhost_verdict : (d : Dict Text) → fmt_vhost_state d ≡ vhost_verdict d
unfolding fmt_vhost_state vhost_verdict
fmt_vhost_state-eq-vhost_verdict d =
    let h = tally-IsTallied d (record { down_nodes = []; ok_count = 0; non_ok_count = 0 }) in
    rw (h.down, h.ok, h.non_ok) (if_swap (any down_entry d) (any running_entry d) _ _ _)
