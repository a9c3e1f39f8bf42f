-- ===== src/Nbd/Proxy/Replying/Runs.antt =====
-- The replies on the socket after runs of many threads in `Done` (nbdproxy.cpp).
use mathlib.Core.List.{append_assoc, append-nil}
use distributed_nas.Base.{
  ℕ, ◌≡◌, refl, sym, ap, ◌∙◌, subst, false, List, [], ◌∷◌, ◌++◌, Option, none, some, take, drop,
  length, to_size, ◌==◌, ==_iff, arith, Outcome, done, Bool-cases, inl, inr,
}
use distributed_nas.Nbd.Io.Writing.{take-append-drop}
use distributed_nas.Nbd.Proxy.{RwReq, nbd_cmd_read, reply_header}
use distributed_nas.Nbd.Proxy.Replying.{
  Position, locks, left, header, body, Replying, at, lock, unlock, after_header, reply_at,
  reply_run, replying,
}
use distributed_nas.Nbd.Proxy.Replying.Whole.{
  data_of, reply_of, replies, IsFilled, times, has_left, is_outside, to_write, AreWhole,
  update-same, update-other, inside-mutex, not_left, IsWriting-m_mutex, moved-AreWhole, once-update,
}

module _ (requests : ℕ → RwReq) where
  -- A thread that has written its reply leaves the mutex.
  unlock-AreWhole :
      (s : Replying) (i : ℕ)
      → is_outside (s.threads i) ≡ false
      → to_write (requests i) (s.threads i) ≡ []
      → AreWhole requests s
      → AreWhole requests (unlock i s)
  unlock-AreWhole s i inside e v =
      let mine = inside-mutex requests s.m_mutex s.threads v.part i v.writing inside in
      let (whole, _, others) = IsWriting-m_mutex requests s v (some i) mine in
      let mine_whole : v.part ≡ reply_of (requests i) =
        sym (append-nil v.part) ∙ ap (λ xs. v.part ++ xs) (sym e) ∙ whole in
      record {
        order = i ∷ v.order;
        part = [];
        sent_whole =
            v.sent_whole
            ∙ ap (λ xs. replies requests v.order ++ xs) mine_whole
            ∙ sym (append-nil (replies requests (i ∷ v.order)));
        once = λ j. elim (Bool-cases (i == j)) [
          | inl same ↦
              let zero_times : times j v.order ≡ 0 =
                v.once j
                ∙ ap (λ k. has_left (s.threads k)) (sym ((==_iff i j).0 same))
                ∙ not_left requests (s.threads i) inside in
              rw same (omega (arith, zero_times))
          | inr other ↦ rw other (omega (arith, v.once j))
        ];
        writing = (
          refl,
          λ j. elim (Bool-cases (i == j)) [
            | inl same ↦ rw same refl
            | inr other ↦ rw other (others j other)
          ],
        );
      }

  lock-AreWhole :
      (m : Option ℕ) (s : Replying) (i : ℕ)
      → s.m_mutex ≡ m
      → s.threads i ≡ locks
      → AreWhole requests s
      → AreWhole requests (lock m i (requests i) s)
  lock-AreWhole (some j) s i e here v = v
  lock-AreWhole none s i e here v =
      let (nothing, others) = IsWriting-m_mutex requests s v none e in
      let p = header (reply_header (requests i).m_handle) in
      record {
        order = v.order;
        part = [];
        sent_whole = v.sent_whole ∙ ap (λ xs. replies requests v.order ++ xs) nothing;
        once = once-update requests v.order s.threads i p (ap has_left (sym here)) v.once;
        writing = (
          ap (to_write (requests i)) (update-same s.threads i p),
          ap is_outside (update-same s.threads i p),
          λ j other. ap is_outside (update-other s.threads i p j other) ∙ others j,
        );
      }

  -- The computation returns, and replies are whole in what it returns.
  abbrev Returns : Outcome Replying → Type 0
  Returns r = (t : Replying) × (r ≡ done t) × AreWhole requests t

  after_header-AreWhole :
      (s : Replying) (i : ℕ)
      → IsFilled (requests i)
      → s.threads i ≡ header []
      → AreWhole requests s
      → Returns (after_header i (requests i) s)
  unfolding after_header
  after_header-AreWhole s i filled here v =
      elim (Bool-cases ((requests i).m_type == nbd_cmd_read)) [
        | inl read ↦
            let r = requests i in
            let p = body r.m_data in
            let size =
              (==_iff (to_size r.m_size) (length r.m_data)).1
                (filled ((==_iff r.m_type nbd_cmd_read).0 read)) in
            let rest : to_write r (s.threads i) ≡ r.m_data = ap (to_write r) here ∙ rw read refl in
            let w = moved-AreWhole requests s i [] p (ap is_outside here) refl rest v in
            (
              at i p s,
              rw (read, after_header) (rw size refl),
              subst (λ xs. AreWhole requests (at i p (record s { sent = xs }))) (append-nil s.sent)
                  w,
            )
        | inr other ↦
            let nothing : to_write (requests i) (s.threads i) ≡ [] =
              ap (to_write (requests i)) here ∙ rw other refl in
            (
              unlock i s,
              rw (other, after_header) refl,
              unlock-AreWhole s i (ap is_outside here) nothing v,
            )
      ]

  reply_at-AreWhole :
      (p : Position) (s : Replying) (i n : ℕ)
      → IsFilled (requests i)
      → s.threads i ≡ p
      → AreWhole requests s
      → Returns (reply_at p i n (requests i) s)
  unfolding reply_at
  reply_at-AreWhole locks s i n filled here v = (_, refl, lock-AreWhole s.m_mutex s i refl here v)
  reply_at-AreWhole (header []) s i n filled here v = after_header-AreWhole s i filled here v
  reply_at-AreWhole (header (b ∷ bs)) s i n filled here v =
      let r = requests i in
      let rest = drop n (b ∷ bs) in
      let split : to_write r (s.threads i) ≡ take n (b ∷ bs) ++ (rest ++ data_of r) =
        ap (to_write r) here
        ∙ ap (λ xs. xs ++ data_of r) (sym (take-append-drop n (b ∷ bs)))
        ∙ append_assoc (take n (b ∷ bs)) rest (data_of r) in
      (
        _,
        refl,
        moved-AreWhole requests s i (take n (b ∷ bs)) (header rest) (ap is_outside here) refl split
            v,
      )
  reply_at-AreWhole (body []) s i n filled here v =
      (_, refl, unlock-AreWhole s i (ap is_outside here) (ap (to_write (requests i)) here) v)
  reply_at-AreWhole (body (b ∷ bs)) s i n filled here v =
      let rest = drop n (b ∷ bs) in
      let split = ap (to_write (requests i)) here ∙ sym (take-append-drop n (b ∷ bs)) in
      (
        _,
        refl,
        moved-AreWhole requests s i (take n (b ∷ bs)) (body rest) (ap is_outside here) refl split v,
      )
  reply_at-AreWhole left s i n filled here v = (s, refl, v)

  run-AreWhole :
      (steps : List (ℕ × ℕ)) (s : Replying)
      → ((i : ℕ) → IsFilled (requests i))
      → AreWhole requests s
      → Returns (reply_run requests steps s)
  unfolding reply_run
  run-AreWhole [] s filled v = (s, refl, v)
  run-AreWhole ((i, n) ∷ steps) s filled v =
      let (t, e, w) = reply_at-AreWhole (s.threads i) s i n (filled i) refl v in
      let (u, f, z) = run-AreWhole steps t filled w in (u, rw (e, reply_run) f, z)

  -- However many threads call `Done` at once and however their calls of `write` alternate and are cut:
  -- if every request that asks for data has a buffer of its size, every step returns, and at any time
  -- the socket has got whole replies, one of each thread that is through, in the order in which these
  -- left the mutex, and then the part that the thread with the mutex has written of its own. Calls of
  -- `write` succeed.
  pub reply_run-AreWhole :
      (steps : List (ℕ × ℕ))
      → ((i : ℕ) → IsFilled (requests i))
      → (s : Replying) × (reply_run requests steps replying ≡ done s) × AreWhole requests s
  reply_run-AreWhole steps filled = run-AreWhole steps replying filled (record {
    order = [];
    part = [];
    sent_whole = refl;
    once = λ j. refl;
    writing = (refl, λ j. refl);
  })
