-- ===== src/Wire/Sent.antt =====
-- The frames that a kernel in app/graph sends hold its updates, in their order.
use mathlib.Core.List.{append-nil, append_assoc}
use faa_sgraph.Base.{
  ℕ, ◌+◌, ◌/◌, ◌%◌, ◌^◌, ◌<◌, ◌≤◌, ◌≡◌, refl, ap, ap₂, sym, ◌∙◌, subst, inl, inr, true, List, [],
  ◌∷◌, ◌++◌, arith, ltb, leb, ◌&&◌, Bool-cases, length, All, All-append, drop, length-append,
  drop-append_left,
}
use faa_sgraph.Bytes.RoundTrip.{AreWords}
use faa_sgraph.Kernel.Updates.{Sender, opened, send, push, flush, send_threshold}
use faa_sgraph.Wire.RoundTrip.{flat, length-flat, flat-append, frame, frames, concat_all, AreChunks}

-- Frames that hold updates in their order, each with at least one, and short.
pub record Holds (uss : List (List (ℕ × ℕ))) (ups : List (ℕ × ℕ)) : Type 0 where
  pub all_of : concat_all uss ≡ ups
  pub short : All (λ vs. length vs < 2 ^ 28) uss
  pub few : length uss ≤ length ups

concat_all-append {ℓ} :
    {A : Type ℓ} (xss : List (List A)) (xs : List A)
    → concat_all (xss ++ xs ∷ []) ≡ concat_all xss ++ xs
concat_all-append [] xs = append-nil xs
concat_all-append (ys ∷ xss) xs =
    ap (λ r. ys ++ r) (concat_all-append xss xs) ∙ sym (append_assoc ys (concat_all xss) xs)

frames-append :
    (uss : List (List (ℕ × ℕ))) (us : List (ℕ × ℕ))
    → frames (uss ++ us ∷ []) ≡ frames uss ++ frame us ∷ []
frames-append [] us = refl
frames-append (vs ∷ uss) us = ap (λ r. frame vs ∷ r) (frames-append uss us)

-- What is sent when a frame is closed.
send-Holds :
    (uss : List (List (ℕ × ℕ))) (us ups : List (ℕ × ℕ))
    → length us < 2 ^ 28
    → Holds uss ups
    → (vss : List (List (ℕ × ℕ))) × (send true (0 ∷ flat us) (frames uss) ≡ frames vss)
      × Holds vss (ups ++ us)
unfolding send
send-Holds uss [] ups short h = (uss, refl, subst (Holds uss) (sym (append-nil ups)) h)
send-Holds uss (u ∷ us) ups short h =
    let vs = u ∷ us in
    let count : length (flat vs) / 2 % 2 ^ 32 ≡ length vs = omega (arith, length-flat vs) in
    let some_there : ltb 1 (length (0 ∷ flat vs)) && true ≡ true = ground (arith, length-flat vs) in
    (
      uss ++ vs ∷ [],
      rw (some_there, count) (sym (frames-append uss vs)),
      record {
        all_of = concat_all-append uss vs ∙ ap (λ r. r ++ vs) h.all_of;
        short = All-append (λ ws. length ws < 2 ^ 28) uss (vs ∷ []) h.short (short, tt);
        few = omega (arith, h.few, length-append uss (vs ∷ []), length-append ups vs);
      },
    )

-- Where a sender stands after some updates: whole frames sent, and the start of another.
pub record Carries (ups : List (ℕ × ℕ)) (s : Sender) : Type 0 where
  pub uss : List (List (ℕ × ℕ))
  pub us : List (ℕ × ℕ)
  pub ups_sent : List (ℕ × ℕ)
  pub sent_of : s.sent ≡ frames uss
  pub holds : Holds uss ups_sent
  pub all_of : ups_sent ++ us ≡ ups
  pub before : List ℕ
  pub data_of : s.updates ≡ before ++ 0 ∷ flat us
  pub off_of : length before ≡ s.send_off
  pub short : length us < 2 ^ 15

opened-Carries : Carries [] opened
unfolding opened
opened-Carries = record {
  uss = [];
  us = [];
  ups_sent = [];
  sent_of = refl;
  holds = record { all_of = refl; short = tt; few = omega arith };
  all_of = refl;
  before = [];
  data_of = refl;
  off_of = refl;
  short = omega arith;
}

push-Carries :
    (ups : List (ℕ × ℕ)) (v val : ℕ) (s : Sender)
    → Carries ups s
    → Carries (ups ++ (v, val) ∷ []) (push true v val s)
unfolding push
push-Carries ups v val s c =
    let us' = c.us ++ (v, val) ∷ [] in
    let whole : s.updates ++ v ∷ val ∷ [] ≡ c.before ++ 0 ∷ flat us' =
      ap (λ r. r ++ v ∷ val ∷ []) c.data_of
      ∙ append_assoc c.before (0 ∷ flat c.us) (v ∷ val ∷ [])
      ∙ ap (λ r. c.before ++ 0 ∷ r) (sym (flat-append c.us ((v, val) ∷ []))) in
    let all : c.ups_sent ++ us' ≡ ups ++ (v, val) ∷ [] =
      sym (append_assoc c.ups_sent c.us ((v, val) ∷ [])) ∙ ap (λ r. r ++ (v, val) ∷ []) c.all_of in
    let size = length-append c.us ((v, val) ∷ []) in
    elim (Bool-cases (leb (s.send_off + send_threshold) (length (s.updates ++ v ∷ val ∷ [])))) [
      | inl full ↦
          let (vss, e, h) = send-Holds c.uss us' c.ups_sent (omega arith) c.holds in
          let cut : drop s.send_off (s.updates ++ v ∷ val ∷ []) ≡ 0 ∷ flat us' =
            ap (drop s.send_off) whole
            ∙ drop-append_left s.send_off c.before (0 ∷ flat us') c.off_of in
          rw full (record {
            uss = vss;
            us = [];
            ups_sent = c.ups_sent ++ us';
            sent_of = ap₂ (send true) cut c.sent_of ∙ e;
            holds = h;
            all_of = append-nil (c.ups_sent ++ us') ∙ all;
            before = s.updates ++ v ∷ val ∷ [];
            data_of = refl;
            off_of = refl;
            short = omega arith;
          })
      | inr not_full ↦ rw not_full (record {
        uss = c.uss;
        us = us';
        ups_sent = c.ups_sent;
        sent_of = c.sent_of;
        holds = c.holds;
        all_of = all;
        before = c.before;
        data_of = whole;
        off_of = c.off_of;
        short = ground (
          arith,
          ap length whole,
          length-append c.before (0 ∷ flat us'),
          length-flat us',
          c.off_of,
        );
      })
    ]

-- All updates of a call of `Calc`.
abbrev pub push_all : List (ℕ × ℕ) → Sender → Sender
push_all [] s = s
push_all ((v, val) ∷ us) s = push_all us (push true v val s)

push_all-Carries :
    (ups us : List (ℕ × ℕ)) (s : Sender) → Carries ups s → Carries (ups ++ us) (push_all us s)
push_all-Carries ups [] s c = subst (λ r. Carries r s) (sym (append-nil ups)) c
push_all-Carries ups ((v, val) ∷ us) s c =
    subst (λ r. Carries r (push_all us (push true v val s))) (append_assoc ups ((v, val) ∷ []) us)
      (push_all-Carries (ups ++ (v, val) ∷ []) us (push true v val s) (push-Carries ups v val s c))

-- The frames of a call.
pub flush-Holds :
    (ups : List (ℕ × ℕ))
    → (uss : List (List (ℕ × ℕ))) × (flush true (push_all ups opened) ≡ frames uss) × Holds uss ups
unfolding flush
flush-Holds ups =
    let s = push_all ups opened in
    let c = push_all-Carries [] ups opened opened-Carries in
    let (vss, e, h) = send-Holds c.uss c.us c.ups_sent (omega (arith, c.short)) c.holds in
    let cut : drop s.send_off s.updates ≡ 0 ∷ flat c.us =
      ap (drop s.send_off) c.data_of
      ∙ drop-append_left s.send_off c.before (0 ∷ flat c.us) c.off_of in
    (vss, ap₂ (send true) cut c.sent_of ∙ e, subst (Holds vss) c.all_of h)

AreWords-flat :
    (us : List (ℕ × ℕ)) → All (λ u. (u.0 < 2 ^ 32) × (u.1 < 2 ^ 32)) us → AreWords (flat us)
AreWords-flat [] a = tt
AreWords-flat (u ∷ us) a = (a.0.0, (a.0.1, AreWords-flat us a.1))

All-split {ℓ κ} :
    {A : Type ℓ} (P : A → Type κ) (xs ys : List A) → All P (xs ++ ys) → All P xs × All P ys
All-split P [] ys a = (tt, a)
All-split P (x ∷ xs) ys a = let (b, c) = All-split P xs ys a.1 in ((a.0, b), c)

pub AreChunks-concat_all :
    (uss : List (List (ℕ × ℕ)))
    → All (λ vs. length vs < 2 ^ 28) uss
    → All (λ u. (u.0 < 2 ^ 32) × (u.1 < 2 ^ 32)) (concat_all uss)
    → AreChunks uss
AreChunks-concat_all [] s a = tt
AreChunks-concat_all (us ∷ uss) s a =
    let (b, c) = All-split (λ u. (u.0 < 2 ^ 32) × (u.1 < 2 ^ 32)) us (concat_all uss) a in
    ((AreWords-flat us b, s.0), AreChunks-concat_all uss s.1 c)
