-- ===== src/Gossip/View.antt =====
-- What the nodes agree on about a member: its incarnation and status, with the addresses and clock
-- readings left out; and the order in which one such version supersedes another.
use self_healing_distributed.Prelude.{
  ℕ, ◌+◌, ◌*◌, ◌≤◌, ◌<◌, max, ◌≡◌, refl, ap, ◌∙◌, sym, Option, none, some, List, [], ◌∷◌, arith,
  ltb, if◌then◌else◌, ite, ℕ_discrete,
}
use self_healing_distributed.Types.{NodeId}
use self_healing_distributed.Gossip.Table.{
  MemberStatus, MemberEntry, MembershipTable, RemoteEntry, lookup,
}
use self_healing_distributed.Gossip.Status.{precedence, precedence-injective}

pub record Version : Type 0 where
  pub incarnation : ℕ
  pub status : MemberStatus

abbrev pub version : MemberEntry → Version
version e = record { incarnation = e.incarnation; status = e.status }

abbrev pub reported : RemoteEntry → Version
reported r = record { incarnation = r.incarnation; status = r.status }

abbrev pub view_of : Option MemberEntry → Option Version
view_of none = none
view_of (some e) = some (version e)

abbrev pub view : MembershipTable → NodeId → Option Version
view t j = view_of (lookup t j)

-- Incarnations are compared first, then the precedence of the statuses.
unfoldable pub weight : Version → ℕ
weight v = 4 * v.incarnation + precedence v.status

abbrev pub join : Version → Version → Version
join v w = if ltb (weight v) (weight w) then w else v

precedence-lt : (s : MemberStatus) → precedence s < 4
precedence-lt s = ground arith

pub weight-injective : (v w : Version) → weight v ≡ weight w → v ≡ w
unfolding weight
weight-injective v w h =
    let p : precedence v.status ≡ precedence w.status =
      omega (arith, precedence-lt v.status, precedence-lt w.status) in
    let i : v.incarnation ≡ w.incarnation = omega arith in
    let s = precedence-injective v.status w.status p in
    λ k. record { incarnation = i k; status = s k }

-- The effect of one report on what is known.
abbrev pub absorb : Option Version → Version → Option Version
absorb none w = some w
absorb (some v) w = some (join v w)

weight-join : (v w : Version) → weight (join v w) ≡ max (weight v) (weight w)
weight-join v w = ground arith

absorb_comm : (o : Option Version) (v w : Version) → absorb (absorb o v) w ≡ absorb (absorb o w) v
absorb_comm none v w = ap some (weight-injective _ _ (ground arith))
absorb_comm (some u) v w = ap some (weight-injective _ _ (ground arith))

absorb_again : (o : Option Version) (v : Version) → absorb (absorb o v) v ≡ absorb o v
absorb_again none v = ground arith
absorb_again (some u) v = ground arith

unfoldable pub absorb_all : Option Version → List Version → Option Version
absorb_all o [] = o
absorb_all o (v ∷ vs) = absorb_all (absorb o v) vs

absorb_all-absorb :
    (o : Option Version) (v : Version) (vs : List Version)
    → absorb_all (absorb o v) vs ≡ absorb (absorb_all o vs) v
unfolding absorb_all
absorb_all-absorb o v [] = refl
absorb_all-absorb o v (w ∷ vs) =
    ap (λ x. absorb_all x vs) (absorb_comm o v w) ∙ absorb_all-absorb (absorb o w) v vs

pub absorb_all_comm :
    (o : Option Version) (vs ws : List Version)
    → absorb_all (absorb_all o vs) ws ≡ absorb_all (absorb_all o ws) vs
unfolding absorb_all
absorb_all_comm o [] ws = refl
absorb_all_comm o (v ∷ vs) ws =
    absorb_all_comm (absorb o v) vs ws ∙ ap (λ x. absorb_all x vs) (absorb_all-absorb o v ws)

pub absorb_all_again :
    (o : Option Version) (vs : List Version) → absorb_all (absorb_all o vs) vs ≡ absorb_all o vs
unfolding absorb_all
absorb_all_again o [] = refl
absorb_all_again o (v ∷ vs) =
    ap (λ x. absorb_all x vs)
      (sym (absorb_all-absorb (absorb o v) v vs) ∙ ap (λ x. absorb_all x vs) (absorb_again o v))
    ∙ absorb_all_again (absorb o v) vs

-- The reports in a message about one node.
unfoldable pub reports : NodeId → List RemoteEntry → List Version
reports j [] = []
reports j (r ∷ rs) = let rest = reports j rs in ite (ℕ_discrete r.id j) (reported r ∷ rest) rest

-- A version is not superseded by what is known.
abbrev pub Covers : Option Version → Version → Type 0
Covers none v = ⊥
Covers (some u) v = weight v ≤ weight u

pub Covers-absorb : (o : Option Version) (u v : Version) → Covers o v → Covers (absorb o u) v
Covers-absorb none u v h = absurd h
Covers-absorb (some w) u v h = ground arith

pub Covers-absorb_all :
    (vs : List Version) (o : Option Version) (v : Version) → Covers o v → Covers (absorb_all o vs) v
unfolding absorb_all
Covers-absorb_all [] o v h = h
Covers-absorb_all (u ∷ vs) o v h = Covers-absorb_all vs (absorb o u) v (Covers-absorb o u v h)
