-- ===== src/Proxy/Handshake/Distinct.antt =====
-- No two connections of a proxy lead to the same tracker, and none to itself.
use tstracker.Base.{
  ℕ, zero, suc, ◌≡◌, ◌≢◌, ◌⊎◌, ◌∙◌, refl, sym, ap, inl, inr, Bool, true, false, ◌&&◌, not, some,
  List, [], ◌∷◌, get_elem?, set, memcmp_self, Bool-cases, some_same, some-none,
}
use tstracker.Access.{same_ip}
use tstracker.Proxy.Handshake.{connected, ProxyPeer, is_connected, Proxy, already_connected, greets}

pub true_or_false : true ≡ false → ⊥
true_or_false e = cc

and_both : (a b : Bool) → (a && b) ≡ true → (a ≡ true) × (b ≡ true)
and_both true b e = (refl, e)
and_both false b e = absurd (true_or_false (sym e))

false_of_not : (b : Bool) → not b ≡ true → b ≡ false
false_of_not true e = absurd (true_or_false (sym e))
false_of_not false e = refl

same_ip_self : (xs : List ℕ) → same_ip xs xs ≡ true
same_ip_self xs = rw (same_ip, memcmp_self xs) refl

-- Where the connections that are connected lead.
pub record IsDistinct (me : List ℕ) (cs : List ProxyPeer) : Type 0 where
  pub apart :
      (i j : ℕ) {c d : ProxyPeer}
      → get_elem? cs i ≡ some c
      → get_elem? cs j ≡ some d
      → is_connected c ≡ true
      → is_connected d ≡ true
      → c.tracker_id ≡ d.tracker_id
      → i ≡ j
  pub not_self :
      (i : ℕ) {c : ProxyPeer} → get_elem? cs i ≡ some c → is_connected c ≡ true → c.tracker_id ≢ me

pub kept :
    (me : List ℕ) {s t : Proxy}
    → IsDistinct me s.connections
    → some s ≡ some t
    → IsDistinct me t.connections
kept me {s} {t} x e = rw (← some_same {o = some s} refl e) x

-- What a connection at `i` may become.
pub record Admits (me : List ℕ) (cs : List ProxyPeer) (i : ℕ) (c : ProxyPeer) : Type 0 where
  pub alone :
      is_connected c ≡ true
      → (j : ℕ) {d : ProxyPeer} → get_elem? cs j ≡ some d
      → is_connected d ≡ true
      → d.tracker_id ≡ c.tracker_id
      → j ≡ i
  pub not_me : is_connected c ≡ true → c.tracker_id ≢ me

get_elem?-set :
    {A : Type 0} (xs : List A) (i j : ℕ) (v d : A)
    → get_elem? (set xs i v) j ≡ some d
    → ((j ≡ i) × (v ≡ d)) ⊎ (get_elem? xs j ≡ some d)
get_elem?-set [] i j v d e = inr e
get_elem?-set (x ∷ xs) zero zero v d e = inl (refl, some_same {o = some v} refl e)
get_elem?-set (x ∷ xs) zero (suc j) v d e = inr e
get_elem?-set (x ∷ xs) (suc i) zero v d e = inr e
get_elem?-set (x ∷ xs) (suc i) (suc j) v d e = elim (get_elem?-set xs i j v d e) [
  | inl (a, b) ↦ inl (ap suc a, b)
  | inr a ↦ inr a
]

pub set-IsDistinct :
    (me : List ℕ) (cs : List ProxyPeer) (i : ℕ) (c : ProxyPeer)
    → Admits me cs i c
    → IsDistinct me cs
    → IsDistinct me (set cs i c)
set-IsDistinct me cs i c a x = record {
  apart = λ j k {c = d} {d = e} p q dc ec same. elim (get_elem?-set cs i j c d p) [
    | inl (at, v) ↦ elim (get_elem?-set cs i k c e q) [
      | inl (at', v') ↦ at ∙ sym at'
      | inr there ↦
          at
          ∙ sym (a.alone (rw (← v) at dc) k there ec (sym same ∙ sym (ap ProxyPeer.tracker_id v)))
    ]
    | inr there ↦ elim (get_elem?-set cs i k c e q) [
      | inl (at', v') ↦
          a.alone (rw (← v') at ec) j there dc (same ∙ sym (ap ProxyPeer.tracker_id v')) ∙ sym at'
      | inr there' ↦ x.apart j k there there' dc ec same
    ]
  ];
  not_self = λ j {c = d} p dc. elim (get_elem?-set cs i j c d p) [
    | inl (at, v) ↦ λ m. a.not_me (rw (← v) at dc) (ap ProxyPeer.tracker_id v ∙ m)
    | inr there ↦ x.not_self j there dc
  ];
}

pub unconnected_Admits :
    (me : List ℕ) (cs : List ProxyPeer) (i : ℕ) (c : ProxyPeer)
    → is_connected c ≡ false
    → Admits me cs i c
unconnected_Admits me cs i c e = record {
  alone = λ y. absurd (true_or_false (sym y ∙ e));
  not_me = λ y. absurd (true_or_false (sym y ∙ e));
}

pub renewed_Admits :
    (me : List ℕ) (cs : List ProxyPeer) (i : ℕ) {old : ProxyPeer} (c : ProxyPeer)
    → IsDistinct me cs
    → get_elem? cs i ≡ some old
    → is_connected old ≡ true
    → c.tracker_id ≡ old.tracker_id
    → Admits me cs i c
renewed_Admits me cs i {old} c x e on same = record {
  alone = λ _ j {d} p dc q. x.apart j i p e dc on (q ∙ same);
  not_me = λ _ m. x.not_self i e on (sym same ∙ m);
}

already_connected-differs :
    (id : List ℕ) (cs : List ProxyPeer) (j : ℕ) {d : ProxyPeer}
    → already_connected id cs ≡ false
    → get_elem? cs j ≡ some d
    → is_connected d ≡ true
    → d.tracker_id ≢ id
unfolding already_connected
already_connected-differs id [] j off p dc = λ _. some-none p
already_connected-differs id (c ∷ cs) zero {d} off p dc = λ same.
    let at : c ≡ d = some_same {o = some c} refl p in
    let found : same_ip c.tracker_id id ≡ true =
      ap (λ x. same_ip x.tracker_id id) at ∙ ap (λ x. same_ip x id) same ∙ same_ip_self id in
    let on : is_connected c ≡ true = ap is_connected at ∙ dc in
    absurd (true_or_false (rw (on, found) at off))
already_connected-differs id (c ∷ cs) (suc j) off p dc =
    elim (Bool-cases (is_connected c && same_ip c.tracker_id id)) [
      | inl hit ↦ absurd (true_or_false (rw hit at off))
      | inr miss ↦ already_connected-differs id cs j (rw miss at off) p dc
    ]

pub greets-Admits :
    (me : List ℕ) (cs : List ProxyPeer) (i : ℕ) (c : ProxyPeer) (id : List ℕ) (sent : Bool)
    → greets me c id sent cs ≡ true
    → Admits me cs i (record c { tracker_id = id; stage = connected })
greets-Admits me cs i c id sent g =
    let (four, g1) = and_both _ _ g in
    let (new, g2) = and_both _ _ g1 in
    let (other, _) = and_both _ _ g2 in
    record {
      alone = λ _ j {d} p dc same.
          absurd (already_connected-differs id cs j (false_of_not _ new) p dc same);
      not_me = λ _ same.
          true_or_false
            (sym (same_ip_self me) ∙ ap (λ x. same_ip x me) (sym same) ∙ false_of_not _ other);
    }
