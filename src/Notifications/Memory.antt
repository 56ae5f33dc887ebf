-- ===== src/Notifications/Memory.antt =====
-- The bounded memory of handled ids, and what `accept` lets through.
use rfq_workflow_agent.Base.{
  ◌+◌, ◌≤◌, ◌≡◌, refl, sym, ◌∙◌, ◌≢◌, true, false, ◌||◌, none, some, List, [], ◌∷◌, ◌++◌, ap, arith,
  ltb, length, drop, length-append, length-drop, Bool-cases, inl, inr, Option-cases,
}
use rfq_workflow_agent.Base.Text.{
  Text, text_eq, text_eq_iff, text_eq_refl, member, member-append, distinct,
}
use rfq_workflow_agent.Notifications.{
  ProcessedMessages, ChangeNotification, register, accept, trusted_id,
}

-- The memory holds no id twice and no more of them than its capacity.
abbrev pub IsBounded : ProcessedMessages → Type 0
IsBounded p = (distinct p.ids ≡ true) × (length p.ids ≤ p.capacity)

distinct-snoc :
    (x : Text) (xs : List Text)
    → distinct xs ≡ true
    → member x xs ≡ false
    → distinct (xs ++ x ∷ []) ≡ true
distinct-snoc x [] d m = refl
distinct-snoc x (y ∷ ys) d m = ground (
  arith,
  distinct-snoc x ys,
  member-append y ys (x ∷ []),
  text_eq_iff x y,
  text_eq_iff y x,
  text_eq_refl x,
)

distinct-drop : (xs : List Text) → distinct xs ≡ true → distinct (drop 1 xs) ≡ true
distinct-drop [] d = d
distinct-drop (x ∷ xs) d = ground arith

drop-snoc : (x : Text) (xs : List Text) → xs ≢ [] → member x (drop 1 (xs ++ x ∷ [])) ≡ true
drop-snoc x [] ne = absurd (ne refl)
drop-snoc x (y ∷ ys) ne = ground (arith, member-append x ys (x ∷ []), text_eq_refl x)

pub register-IsBounded :
    (id : Text) (p : ProcessedMessages) → IsBounded p → IsBounded (register id p).1
unfolding register
register-IsBounded id p (d, l) = elim (Bool-cases (member id p.ids)) [
  | inl seen ↦ rw seen ((d, l))
  | inr fresh ↦ elim (Bool-cases (ltb p.capacity (length (p.ids ++ id ∷ [])))) [
    | inl full ↦
        rw (fresh, full)
          ((
            distinct-drop (p.ids ++ id ∷ []) (distinct-snoc id p.ids d fresh),
            omega (arith, length-drop 1 (p.ids ++ id ∷ []), length-append p.ids (id ∷ []), l),
          ))
    | inr room ↦ rw (fresh, room) ((distinct-snoc id p.ids d fresh, ground (arith, room)))
  ]
]

-- The memory holds no id twice and no more ids than its capacity after any batch, if it did before.
pub accept-IsBounded :
    (client_state : Text) (ns : List ChangeNotification) (p : ProcessedMessages)
    → IsBounded p
    → IsBounded (accept client_state ns p).1
unfolding accept
accept-IsBounded client_state [] p b = b
accept-IsBounded client_state (n ∷ ns) p b = elim (Option-cases (trusted_id client_state n)) [
  | inl dropped ↦ rw (accept, dropped) (accept-IsBounded client_state ns p b)
  | inr (id, trusted) ↦
      rw (accept, trusted)
        (accept-IsBounded client_state ns (register id p).1 (register-IsBounded id p b))
]

-- The ids of the trusted notifications, in their order.
abbrev pub trusted_ids : Text → List ChangeNotification → List Text
trusted_ids client_state [] = []
trusted_ids client_state (n ∷ ns) = elim (trusted_id client_state n) [
  | none ↦ trusted_ids client_state ns
  | some id ↦ id ∷ trusted_ids client_state ns
]

-- What holds of a list of accepted ids and of the memory behind it.
abbrev pub Accepted : (before trusted accepted : List Text) (after : ProcessedMessages) → Type 0
Accepted before trusted accepted after =
    (after.ids ≡ before ++ accepted)
    × (distinct after.ids ≡ true)
    × ((x : Text) → member x after.ids ≡ (member x before || member x trusted))

register_new :
    (id : Text) (p : ProcessedMessages)
    → member id p.ids ≡ false
    → length p.ids + 1 ≤ p.capacity
    → register id p ≡ (true, record p { ids = p.ids ++ id ∷ [] })
unfolding register
register_new id p fresh room =
    let fits : ltb p.capacity (length (p.ids ++ id ∷ [])) ≡ false =
      ground (arith, length-append p.ids (id ∷ []), room) in
    rw (fresh, fits)

register_seen :
    (id : Text) (p : ProcessedMessages) → member id p.ids ≡ true → register id p ≡ (false, p)
unfolding register
register_seen id p seen = rw seen

append_nil : (xs : List Text) → xs ++ [] ≡ xs
append_nil [] = refl
append_nil (x ∷ xs) = ap (λ l. x ∷ l) (append_nil xs)

append_assoc : (xs : List Text) (y : Text) (zs : List Text) → (xs ++ y ∷ []) ++ zs ≡ xs ++ (y ∷ zs)
append_assoc [] y zs = refl
append_assoc (x ∷ xs) y zs = ap (λ l. x ∷ l) (append_assoc xs y zs)

-- A member of the front is a member, so that one more id of the same text changes nothing.
member-again :
    (x id : Text) (xs : List Text)
    → member id xs ≡ true
    → (member x xs || text_eq x id) ≡ member x xs
member-again x id xs seen = elim (Bool-cases (text_eq x id)) [
  | inl same ↦ ground (arith, (text_eq_iff x id).0 same, seen)
  | inr other ↦ ground (arith, other)
]

-- Where the memory has room for the whole batch, what `accept` lets through is exactly what was
-- trusted and not known, each id once, and all of it is remembered.
pub accept-Accepted :
    (client_state : Text) (ns : List ChangeNotification) (p : ProcessedMessages)
    → IsBounded p
    → length p.ids + length ns ≤ p.capacity
    → Accepted p.ids
        (trusted_ids client_state ns)
        (accept client_state ns p).0
        (accept client_state ns p).1
unfolding accept
accept-Accepted client_state [] p b room = (sym (append_nil p.ids), b.0, λ x. ground (arith))
accept-Accepted client_state (n ∷ ns) p b room = elim (Option-cases (trusted_id client_state n)) [
  | inl dropped ↦
      rw (accept, trusted_ids, dropped) (accept-Accepted client_state ns p b (omega (arith, room)))
  | inr (id, trusted) ↦ elim (Bool-cases (member id p.ids)) [
    | inl seen ↦
        let (e, d, m) = accept-Accepted client_state ns p b (omega (arith, room)) in
        rw (accept, trusted_ids, trusted, register_seen id p seen)
          ((e, d, λ x. ground (arith, m x, member-again x id p.ids seen)))
    | inr fresh ↦
        let q = record p { ids = p.ids ++ id ∷ [] } in
        let (e, d, m) =
          accept-Accepted client_state ns q
            (distinct-snoc id p.ids b.0 fresh, omega (arith, length-append p.ids (id ∷ []), room))
            (omega (arith, length-append p.ids (id ∷ []), room)) in
        rw (accept, trusted_ids, trusted, register_new id p fresh (omega (arith, room)))
          ((
            e ∙ append_assoc p.ids id _,
            d,
            λ x. ground (arith, m x, member-append x p.ids (id ∷ [])),
          ))
  ]
]

accept-seen :
    (client_state : Text) (ns : List ChangeNotification) (p : ProcessedMessages)
    → ((x : Text) → member x (trusted_ids client_state ns) ≡ true → member x p.ids ≡ true)
    → accept client_state ns p ≡ ([], p)
unfolding accept
accept-seen client_state [] p known = refl
accept-seen client_state (n ∷ ns) p known = elim (Option-cases (trusted_id client_state n)) [
  | inl dropped ↦
      rw (accept, dropped)
        (accept-seen client_state ns p λ x h. known x (rw (trusted_ids, dropped) h))
  | inr (id, trusted) ↦
      let seen : member id p.ids ≡ true =
        known id (rw (trusted_ids, trusted) (ground (arith, text_eq_refl id))) in
      let rest : accept client_state ns p ≡ ([], p) =
        accept-seen client_state ns p
          λ x h. known x (rw (trusted_ids, trusted) (ground (arith, h))) in
      rw (accept, trusted, register_seen id p seen, rest)
]

-- Where the memory has room for the whole batch, the batch that Graph sends again is dropped whole
-- and leaves the memory as it is.
pub accept-again :
    (client_state : Text) (ns : List ChangeNotification) (p : ProcessedMessages)
    → IsBounded p
    → length p.ids + length ns ≤ p.capacity
    → let after = (accept client_state ns p).1 in accept client_state ns after ≡ ([], after)
accept-again client_state ns p b room =
    accept-seen client_state ns _
      λ x h. ground (arith, (accept-Accepted client_state ns p b room).2 x, h)
