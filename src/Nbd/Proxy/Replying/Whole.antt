-- ===== src/Nbd/Proxy/Replying/Whole.antt =====
-- What it is for replies not to mix on the socket, and what keeps it so while a thread has the mutex.
use mathlib.Core.List.{append_assoc}
use distributed_nas.Base.{
  ℕ, ◌+◌, ◌≡◌, refl, sym, ap, ◌∙◌, subst, Bool, true, false, List, [], ◌∷◌, ◌++◌, Option, none,
  some, length, to_size, ◌==◌, ==_iff, ==_refl, if◌then◌else◌, update, Bool-cases, inl, inr,
}
use distributed_nas.Nbd.Proxy.{RwReq, nbd_cmd_read, reply_header}
use distributed_nas.Nbd.Proxy.Replying.{Position, locks, left, header, body, Replying, at}

-- The bytes of a whole reply.
abbrev pub data_of : RwReq → List ℕ
data_of r = if r.m_type == nbd_cmd_read then r.m_data else []

abbrev pub reply_of : RwReq → List ℕ
reply_of r = reply_header r.m_handle ++ data_of r

abbrev pub replies : (ℕ → RwReq) → List ℕ → List ℕ
replies requests [] = []
replies requests (i ∷ is) = replies requests is ++ reply_of (requests i)

-- A request that asks for data has a buffer of the size it says.
abbrev pub IsFilled : RwReq → Type 0
IsFilled r = (r.m_type ≡ nbd_cmd_read) → to_size r.m_size ≡ length r.m_data

abbrev pub times : ℕ → List ℕ → ℕ
times j [] = 0
times j (i ∷ is) = (if i == j then 1 else 0) + times j is

abbrev pub has_left : Position → ℕ
has_left left = 1
has_left p = 0

-- A thread without the mutex.
abbrev pub is_outside : Position → Bool
is_outside locks = true
is_outside left = true
is_outside p = false

-- What a thread has yet to write.
abbrev pub to_write : RwReq → Position → List ℕ
to_write r (header bs) = bs ++ data_of r
to_write r (body bs) = bs
to_write r p = []

-- The thread with the mutex, if any, has written `part` of its reply and has the rest before it, and
-- the others are without.
abbrev pub IsWriting : (ℕ → RwReq) → Option ℕ → (ℕ → Position) → List ℕ → Type 0
IsWriting requests none threads part = (part ≡ []) × ((j : ℕ) → is_outside (threads j) ≡ true)
IsWriting requests (some i) threads part =
    (part ++ to_write (requests i) (threads i) ≡ reply_of (requests i))
    × (is_outside (threads i) ≡ false)
    × ((j : ℕ) → (i == j) ≡ false → is_outside (threads j) ≡ true)

-- The socket has got the whole replies of the threads `order`, the last one first, and then a part of
-- the one that has the mutex; and `order` has each thread that is done once, and no other.
pub record AreWhole (requests : ℕ → RwReq) (s : Replying) : Type 0 where
  pub order : List ℕ
  pub part : List ℕ
  pub sent_whole : s.sent ≡ replies requests order ++ part
  pub once : (j : ℕ) → times j order ≡ has_left (s.threads j)
  pub writing : IsWriting requests s.m_mutex s.threads part

pub update-same : {A : Type 0} (f : ℕ → A) (i : ℕ) (a : A) → update f i a i ≡ a
update-same f i a = rw (==_refl i) refl

pub update-other :
    {A : Type 0} (f : ℕ → A) (i : ℕ) (a : A) (j : ℕ) → (i == j) ≡ false → update f i a j ≡ f j
update-other f i a j e = rw e refl

-- The thread that is inside has the mutex.
pub inside-mutex :
    (requests : ℕ → RwReq) (m : Option ℕ) (threads : ℕ → Position) (part : List ℕ) (i : ℕ)
    → IsWriting requests m threads part
    → is_outside (threads i) ≡ false
    → m ≡ some i
inside-mutex requests none threads part i (e, others) inside =
    let clash : true ≡ false = sym (others i) ∙ inside in cc
inside-mutex requests (some k) threads part i (e, own, others) inside = elim (Bool-cases (k == i)) [
  | inl same ↦ ap some ((==_iff k i).0 same)
  | inr other ↦ let clash : true ≡ false = sym (others i other) ∙ inside in cc
]

module _ (requests : ℕ → RwReq) where
  -- What `once` says goes on for a thread that is as much at its end as before.
  pub once-update :
      (order : List ℕ) (threads : ℕ → Position) (i : ℕ) (p : Position)
      → has_left p ≡ has_left (threads i)
      → ((j : ℕ) → times j order ≡ has_left (threads j))
      → (j : ℕ) → times j order ≡ has_left (update threads i p j)
  once-update order threads i p same once j = elim (Bool-cases (i == j)) [
    | inl e ↦ rw e (once j ∙ ap (λ k. has_left (threads k)) (sym ((==_iff i j).0 e)) ∙ sym same)
    | inr e ↦ rw e (once j)
  ]

  -- A thread inside moves on, and has written more.
  moved-IsWriting :
      (threads : ℕ → Position) (part more : List ℕ) (i : ℕ) (p : Position)
      → IsWriting requests (some i) threads part
      → is_outside p ≡ false
      → to_write (requests i) (threads i) ≡ more ++ to_write (requests i) p
      → IsWriting requests (some i) (update threads i p) (part ++ more)
  moved-IsWriting threads part more i p (whole, inside, others) inside' e =
      let here = update-same threads i p in
      (
        ap (λ q. (part ++ more) ++ to_write (requests i) q) here
            ∙ append_assoc part more (to_write (requests i) p)
            ∙ ap (λ xs. part ++ xs) (sym e)
            ∙ whole,
        ap is_outside here ∙ inside',
        λ j other. ap is_outside (update-other threads i p j other) ∙ others j other,
      )

  pub not_left : (q : Position) → is_outside q ≡ false → has_left q ≡ 0
  not_left locks h = cc
  not_left left h = cc
  not_left (header bs) h = refl
  not_left (body bs) h = refl

  pub IsWriting-m_mutex :
      (s : Replying) (v : AreWhole requests s) (m : Option ℕ)
      → s.m_mutex ≡ m
      → IsWriting requests m s.threads v.part
  IsWriting-m_mutex s v m e = subst (λ m'. IsWriting requests m' s.threads v.part) e v.writing

  pub moved-AreWhole :
      (s : Replying) (i : ℕ) (more : List ℕ) (p : Position)
      → is_outside (s.threads i) ≡ false
      → is_outside p ≡ false
      → to_write (requests i) (s.threads i) ≡ more ++ to_write (requests i) p
      → AreWhole requests s
      → AreWhole requests (at i p (record s { sent = s.sent ++ more }))
  moved-AreWhole s i more p inside inside' e v =
      let mine = inside-mutex requests s.m_mutex s.threads v.part i v.writing inside in
      let same = not_left p inside' ∙ sym (not_left (s.threads i) inside) in
      let now =
        moved-IsWriting s.threads v.part more i p (IsWriting-m_mutex s v (some i) mine) inside' e in
      record {
        order = v.order;
        part = v.part ++ more;
        sent_whole =
            ap (λ xs. xs ++ more) v.sent_whole
            ∙ append_assoc (replies requests v.order) v.part more;
        once = once-update v.order s.threads i p same v.once;
        writing =
            subst (λ m. IsWriting requests m (update s.threads i p) (v.part ++ more)) (sym mine)
              now;
      }
