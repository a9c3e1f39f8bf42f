-- ===== src/Nbd/Pipeline/Commuting.antt =====
-- The order in which the threads take commands, and what it does to the bytes.
use mathlib.Core.List.{append_assoc, append-nil}
use distributed_nas.Base.{
  ℕ, zero, suc, ◌+◌, ◌≤◌, ◌≡◌, refl, sym, ap, ap₂, subst, ◌∙◌, ◌⊎◌, inl, inr, List, [], ◌∷◌, ◌++◌,
  some, arith, length, drop, All, map, done,
}
use distributed_nas.Nbd.Slices.{spliced}
use distributed_nas.Nbd.Blocks.{
  BlockCommand, read_block, write_block, left_by, left_by_all, IsInRange, length-left_by,
  length-spliced,
}
use distributed_nas.Nbd.Server.{Disk}
use distributed_nas.Nbd.Pipeline.{Pipeline, pick-cases, turns}
use distributed_nas.Nbd.Pipeline.Device.{
  Event, arrival, service, Device, serve_picked, device_step, device_run, EventIsInRange, FeedsRun,
}
use distributed_nas.Nbd.Pipeline.Simulation.{turn_of, task_for, StandsFor, turns-StandsFor}

-- The same as `spliced`, byte by byte.
overlay : List ℕ → List ℕ → List ℕ
overlay [] b = b
overlay (x ∷ xs) [] = []
overlay (x ∷ xs) (y ∷ b) = x ∷ overlay xs b

splice : ℕ → List ℕ → List ℕ → List ℕ
splice zero xs b = overlay xs b
splice (suc n) xs [] = []
splice (suc n) xs (y ∷ b) = y ∷ splice n xs b

overlay-append :
    (xs b : List ℕ) (n : ℕ) → length xs ≤ length b → n ≡ length xs → overlay xs b ≡ xs ++ drop n b
unfolding overlay
overlay-append [] b zero h e = refl
overlay-append [] b (suc n) h e = absurd (omega arith)
overlay-append (x ∷ xs) [] n h e = absurd (omega arith)
overlay-append (x ∷ xs) (y ∷ b) zero h e = absurd (omega arith)
overlay-append (x ∷ xs) (y ∷ b) (suc n) h e =
    ap (◌∷◌ x) (overlay-append xs b n (omega arith) (omega arith))

splice-spliced : (o : ℕ) (xs b : List ℕ) → o + length xs ≤ length b → splice o xs b ≡ spliced o xs b
unfolding splice
splice-spliced zero xs b h = overlay-append xs b (0 + length xs) (omega arith) (omega arith)
splice-spliced (suc o) xs [] h = absurd (omega arith)
splice-spliced (suc o) xs (y ∷ b) h =
    let next : suc o + length xs ≡ suc (o + length xs) = omega arith in
    rw next (ap (◌∷◌ y) (splice-spliced o xs b (omega arith)))

splice-overlay :
    (n : ℕ) (xs ys b : List ℕ)
    → length xs ≤ n
    → splice n ys (overlay xs b) ≡ overlay xs (splice n ys b)
unfolding splice overlay
splice-overlay n [] ys b h = refl
splice-overlay zero (x ∷ xs) ys b h = absurd (omega arith)
splice-overlay (suc n) (x ∷ xs) ys [] h = refl
splice-overlay (suc n) (x ∷ xs) ys (y ∷ b) h = ap (◌∷◌ x) (splice-overlay n xs ys b (omega arith))

splice-splice :
    (o n : ℕ) (xs ys b : List ℕ)
    → o + length xs ≤ n
    → splice n ys (splice o xs b) ≡ splice o xs (splice n ys b)
unfolding splice
splice-splice zero n xs ys b h = splice-overlay n xs ys b (omega arith)
splice-splice (suc o) zero xs ys b h = absurd (omega arith)
splice-splice (suc o) (suc n) xs ys [] h = refl
splice-splice (suc o) (suc n) xs ys (y ∷ b) h = ap (◌∷◌ y) (splice-splice o n xs ys b (omega arith))

-- Two commands that are not writes to ranges that overlap.
abbrev pub AreApart : BlockCommand → BlockCommand → Type 0
AreApart (read_block handle from len) c = Unit
AreApart (write_block handle from payload) (read_block handle' from' len) = Unit
AreApart (write_block handle from payload) (write_block handle' from' payload') =
    (from + length payload ≤ from') ⊎ (from' + length payload' ≤ from)

abbrev pub Pairwise : List BlockCommand → Type 0
Pairwise [] = Unit
Pairwise (c ∷ cs) = All (AreApart c) cs × Pairwise cs

spliced_twice :
    (o n : ℕ) (xs ys b : List ℕ)
    → o + length xs ≤ length b
    → n + length ys ≤ length b
    → spliced n ys (spliced o xs b) ≡ splice n ys (splice o xs b)
spliced_twice o n xs ys b h k =
    sym (splice-spliced n ys (spliced o xs b) (omega (arith, length-spliced o xs b h)))
    ∙ ap (splice n ys) (sym (splice-spliced o xs b h))

left_by-left_by :
    (b : List ℕ) (c d : BlockCommand)
    → IsInRange (length b) c
    → IsInRange (length b) d
    → AreApart c d
    → left_by (left_by b c) d ≡ left_by (left_by b d) c
left_by-left_by b (read_block handle from len) d hc hd apart = refl
left_by-left_by b (write_block handle from payload) (read_block handle' from' len) hc hd apart =
    refl
left_by-left_by b (write_block handle from xs) (write_block handle' from' ys) (_, _, _, hc)
      (_, _, _, hd) apart =
    spliced_twice from from' xs ys b hc hd
    ∙ elim apart [
      | inl below ↦ splice-splice from from' xs ys b below
      | inr above ↦ sym (splice-splice from' from ys xs b above)
    ]
    ∙ sym (spliced_twice from' from ys xs b hd hc)

All-remove :
    (P : BlockCommand → Type 0) (pre : List BlockCommand) (c : BlockCommand)
    (rest : List BlockCommand)
    → All P (pre ++ c ∷ rest)
    → P c × All P (pre ++ rest)
All-remove P [] c rest h = h
All-remove P (x ∷ pre) c rest (h, hs) =
    let (hc, others) = All-remove P pre c rest hs in (hc, (h, others))

Pairwise-remove :
    (pre : List BlockCommand) (c : BlockCommand) (rest : List BlockCommand)
    → Pairwise (pre ++ c ∷ rest)
    → Pairwise (pre ++ rest)
Pairwise-remove [] c rest (h, hs) = hs
Pairwise-remove (x ∷ pre) c rest (h, hs) =
    ((All-remove (AreApart x) pre c rest h).1, Pairwise-remove pre c rest hs)

-- A command that is apart from those before it may go first.
left_by_all-remove :
    (b : List ℕ) (pre : List BlockCommand) (c : BlockCommand) (rest : List BlockCommand)
    → All (IsInRange (length b)) (pre ++ c ∷ rest)
    → Pairwise (pre ++ c ∷ rest)
    → left_by_all b (pre ++ c ∷ rest) ≡ left_by_all (left_by b c) (pre ++ rest)
left_by_all-remove b [] c rest r h = refl
left_by_all-remove b (x ∷ pre) c rest (r, rs) (h, hs) =
    let hc = (All-remove (IsInRange (length b)) pre c rest rs).0 in
    let apart = (All-remove (AreApart x) pre c rest h).0 in
    left_by_all-remove (left_by b x) pre c rest (rw (length-left_by b x r) rs) hs
    ∙ ap (λ u. left_by_all u (pre ++ rest)) (left_by-left_by b x c r hc apart)

abbrev pub arrived : List Event → List BlockCommand
arrived [] = []
arrived (arrival c ∷ es) = c ∷ arrived es
arrived (service k ∷ es) = arrived es

-- The bytes of a device after a run and after the commands that still wait.
abbrev whole_run : List Event → Device → List ℕ
whole_run es d = left_by_all (device_run es d).bytes (device_run es d).pending

device_run-left_by_all :
    (es : List Event) (d : Device)
    → All (IsInRange (length d.bytes)) (d.pending ++ arrived es)
    → Pairwise (d.pending ++ arrived es)
    → whole_run es d ≡ left_by_all d.bytes (d.pending ++ arrived es)
device_run-left_by_all [] d r h = ap (left_by_all d.bytes) (sym (append-nil d.pending))
device_run-left_by_all (arrival c ∷ es) d r h =
    let e = append_assoc d.pending (c ∷ []) (arrived es) in
    device_run-left_by_all es (device_step (arrival c) d) (rw e r) (rw e h)
    ∙ ap (left_by_all d.bytes) e
device_run-left_by_all (service k ∷ es) d r h = elim (pick-cases k d.pending) [
  | inl e ↦ ap (λ o. whole_run es (serve_picked o d)) e ∙ device_run-left_by_all es d r h
  | inr (pre, c, post, e, g) ↦
      let rest = post ++ arrived es in
      let whole : d.pending ++ arrived es ≡ pre ++ c ∷ rest =
        ap (λ cs. cs ++ arrived es) e ∙ append_assoc pre (c ∷ post) (arrived es) in
      let r' = subst (All (IsInRange (length d.bytes))) whole r in
      let h' = subst Pairwise whole h in
      let (rc, rs) = All-remove (IsInRange (length d.bytes)) pre c rest r' in
      let left = append_assoc pre post (arrived es) in
      ap (λ o. whole_run es (serve_picked o d)) g
      ∙ device_run-left_by_all es (serve_picked (some (c, pre ++ post)) d)
          (rw (length-left_by d.bytes c rc, left) rs) (rw left (Pairwise-remove pre c rest h'))
      ∙ ap (left_by_all (left_by d.bytes c)) left
      ∙ sym (left_by_all-remove d.bytes pre c rest r' h')
      ∙ ap (left_by_all d.bytes) (sym whole)
]

pub All-arrived :
    (size : ℕ) (es : List Event) → All (IsInRange size) (arrived es) → All (EventIsInRange size) es
All-arrived size [] h = tt
All-arrived size (arrival c ∷ es) (h, hs) = (h, All-arrived size es hs)
All-arrived size (service k ∷ es) h = (tt, All-arrived size es h)

-- Pipelines that stand for the device before and after a run that leaves no command.
pub StandsFor-left_by_all :
    (disk : Disk) (es : List Event) (d : Device) (p q : Pipeline disk.File)
    → All (IsInRange (length d.bytes)) (arrived es)
    → Pairwise (arrived es)
    → d.pending ≡ []
    → (device_run es d).pending ≡ []
    → StandsFor disk d p
    → StandsFor disk (device_run es d) q
    → disk.bytes q.server.file ≡ left_by_all (disk.bytes p.server.file) (arrived es)
StandsFor-left_by_all disk es d p q r h none_before none_after v w =
    w.same_bytes
    ∙ ap (left_by_all (device_run es d).bytes) (sym none_after)
    ∙ device_run-left_by_all es d (rw none_before r) (rw none_before h)
    ∙ ap₂ (λ b cs. left_by_all b (cs ++ arrived es)) (sym v.same_bytes) none_before

-- If no two writes overlap, the order in which the threads take the tasks does not matter: after a
-- run of commands in range that leaves no task, the file holds what the commands leave one after the
-- other in the order of their arrival, whatever the order of the tasks and the cuts of the calls.
pub turns-left_by_all :
    (disk : Disk) (es : List Event) (d : Device) (p : Pipeline disk.File)
    → All (IsInRange (length d.bytes)) (arrived es)
    → Pairwise (arrived es)
    → d.pending ≡ []
    → (device_run es d).pending ≡ []
    → StandsFor disk d p
    → FeedsRun es d p.server.from_socket p.server.from_file p.server.to_socket p.server.to_file
    → (q : Pipeline disk.File) × (turns (map turn_of es) p ≡ done q)
      × (q.engine.m_tp ≡ [])
      × (disk.bytes q.server.file ≡ left_by_all (disk.bytes p.server.file) (arrived es))
turns-left_by_all disk es d p r h none_before none_after v f =
    let (q, e, w) =
      turns-StandsFor disk es d p (All-arrived (length d.bytes) es r) (rw none_before tt) v f in
    (
      q,
      e,
      w.same_tasks ∙ ap (map (task_for disk)) none_after,
      StandsFor-left_by_all disk es d p q r h none_before none_after v w,
    )
