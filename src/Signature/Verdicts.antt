-- ===== src/Signature/Verdicts.antt =====
-- What `_sig_check_pkg` of dnf/base.py answers, through dnf/rpm/miscutils.py.
use dnf.Base.{
  Bool, ℕ, zero, suc, ◌≤◌, ◌≡◌, refl, ap, true, false, ◌||◌, Option, none, some, List, [], ◌∷◌,
  ℕ_eq, if◌then◌else◌, arith, Option-cases, Bool-cases, inl, inr, All, All-imp, ◌⊎◌, ◌↔◌, ◌≢◌,
}
use dnf.Signature.{
  Line, Kind, bad, no_key, not_trusted, not_found, trusted, fine, unknown, first_kind, classify,
  ReturnCode, exited, signalled, is_fatal, verify_package, SigCheck, Message, no_message,
  key_not_installed, key_not_trusted, checks, hasgpgkey, judge_signature, sig_check_pkg,
}
use dnf.Base.Text.{codes, contains, ends_with}
use dnf.Signature.Output.{answer, answer_of, middle, process_rpm_output-answer, some_line, is_kind}

-- The kinds of the lines that may stand in the output for an accepted package.
abbrev KindMayStand : Kind → Type 0
KindMayStand trusted = Unit
KindMayStand fine = Unit
KindMayStand not_trusted = Unit
KindMayStand _ = ⊥

-- A line that may stand there: no BAD is in it, it does not end in NOKEY, and it ends in NOTTRUSTED,
-- or in OK and not in NOTFOUND.
abbrev pub MayStand : Line → Type 0
MayStand line =
    (contains (codes ": BAD") line ≡ false)
    × (ends_with (codes ": NOKEY") line ≡ false)
    × ((ends_with (codes ": NOTTRUSTED") line ≡ true)
        ⊎ (ends_with (codes ": NOTFOUND") line ≡ false) × (ends_with (codes ": OK") line ≡ true))

-- The same of the six tests of the loop.
first_kind-MayStand :
    (b k t n o s : Bool)
    → KindMayStand (first_kind b k t n o s)
    → (b ≡ false) × (k ≡ false) × ((t ≡ true) ⊎ (n ≡ false) × (o ≡ true))
first_kind-MayStand true k t n o s h = absurd h
first_kind-MayStand false true t n o s h = absurd h
first_kind-MayStand false false true n o s h = (refl, refl, inl refl)
first_kind-MayStand false false false true o s h = absurd h
first_kind-MayStand false false false false true s h = (refl, refl, inr (refl, refl))
first_kind-MayStand false false false false false s h = absurd h

MayStand-first_kind :
    (b k t n o s : Bool)
    → (b ≡ false) × (k ≡ false) × ((t ≡ true) ⊎ (n ≡ false) × (o ≡ true))
    → KindMayStand (first_kind b k t n o s)
MayStand-first_kind true k t n o s h = cc (h.0)
MayStand-first_kind false true t n o s h = cc (h.1)
MayStand-first_kind false false true n o s h = tt
MayStand-first_kind false false false true o s h = absurd (ground arith)
MayStand-first_kind false false false false true true h = tt
MayStand-first_kind false false false false true false h = tt
MayStand-first_kind false false false false false s h = absurd (ground arith)

classify-MayStand : (line : Line) → KindMayStand (classify line) → MayStand line
unfolding classify
classify-MayStand line h = first_kind-MayStand _ _ _ _ _ _ h

MayStand-classify : (line : Line) → MayStand line → KindMayStand (classify line)
unfolding classify
MayStand-classify line h = MayStand-first_kind _ _ _ _ _ _ h

-- The output for an accepted package, between its frame: every line may stand there, and where one
-- is NOTTRUSTED there is a trusted signature.
abbrev pub IsGood : List Line → Type 0
IsGood lines =
    All MayStand lines × ((some_line not_trusted lines ≡ false) ⊎ (some_line trusted lines ≡ true))

Absent : List Line → Type 0
Absent lines =
    (some_line bad lines ≡ false)
    × (some_line unknown lines ≡ false)
    × (some_line no_key lines ≡ false)
    × (some_line not_found lines ≡ false)

-- The same of a line of kind `k` in front.
AbsentBehind : Kind → List Line → Type 0
AbsentBehind k lines =
    (is_kind bad k || some_line bad lines ≡ false)
    × (is_kind unknown k || some_line unknown lines ≡ false)
    × (is_kind no_key k || some_line no_key lines ≡ false)
    × (is_kind not_found k || some_line not_found lines ≡ false)

may_stand : (k : Kind) (lines : List Line) → AbsentBehind k lines → KindMayStand k × Absent lines
unfolding Absent AbsentBehind
may_stand trusted lines h = (tt, h)
may_stand fine lines h = (tt, h)
may_stand not_trusted lines h = (tt, h)
may_stand bad lines h = cc (h.0)
may_stand unknown lines h = cc (h.1)
may_stand no_key lines h = cc (h.2)
may_stand not_found lines h = cc (h.3)

absent_behind :
    (k : Kind) (lines : List Line) → KindMayStand k → Absent lines → AbsentBehind k lines
unfolding Absent AbsentBehind
absent_behind trusted lines m a = a
absent_behind fine lines m a = a
absent_behind not_trusted lines m a = a
absent_behind bad lines m a = absurd m
absent_behind unknown lines m a = absurd m
absent_behind no_key lines m a = absurd m
absent_behind not_found lines m a = absurd m

All-of_Absent :
    (lines : List Line) → Absent lines → All (λ line. KindMayStand (classify line)) lines
unfolding Absent AbsentBehind
All-of_Absent [] h = tt
All-of_Absent (line ∷ lines) h =
    let (m, rest) = may_stand (classify line) lines h in (m, All-of_Absent lines rest)

Absent-of_All :
    (lines : List Line) → All (λ line. KindMayStand (classify line)) lines → Absent lines
unfolding Absent AbsentBehind
Absent-of_All [] h = (refl, refl, refl, refl)
Absent-of_All (line ∷ lines) h = absent_behind (classify line) lines h.0 (Absent-of_All lines h.1)

answer_zero : (lines : List Line) → answer lines ≡ 0 → IsGood lines
unfolding Absent
answer_zero lines h =
    (All-imp lines classify-MayStand (All-of_Absent lines (ground arith)), ground arith)

zero_answer : (lines : List Line) → IsGood lines → answer lines ≡ 0
unfolding Absent
zero_answer lines good =
    let a = Absent-of_All lines (All-imp lines MayStand-classify good.0) in
    let rule = good.1 in ground arith

-- What rpmkeys did for an accepted package: it exited with 0, and its framed output is good.
pub record IsAccepted (run : Option (ReturnCode × List Line)) : Type 0 where
  pub lines : List Line
  pub body : List Line
  pub ran : run ≡ some (exited 0, lines)
  pub framed : middle lines ≡ some body
  pub good : IsGood body

answer_of_zero :
    (lines : List Line)
    → answer_of (middle lines) ≡ 0
    → (body : List Line) × (middle lines ≡ some body) × IsGood body
answer_of_zero lines h = elim (Option-cases (middle lines)) [
  | inl e ↦ absurd (two_ne_zero (rw e at h))
  | inr (body, e) ↦ (body, e, answer_zero body (rw e at h))
]
  where
    two_ne_zero : ◌≡◌ {A = ℕ} 2 0 → ⊥
    two_ne_zero e = omega arith

-- `_verifyPackageUsingRpmkeys` behind the test of the return code.
verify-zero :
    (returncode : ReturnCode) (lines : List Line)
    → verify_package (some (returncode, lines)) ≡ 0
    → (returncode ≡ exited 0) × (answer_of (middle lines) ≡ 0)
unfolding verify_package is_fatal
verify-zero (exited code) lines h = ground (arith, process_rpm_output-answer lines)
verify-zero (signalled signal) lines h = absurd (omega arith)

unfound-ne_zero : verify_package none ≢ 0
unfolding verify_package
unfound-ne_zero e = omega arith

zero-verify :
    (lines : List Line) → answer_of (middle lines) ≡ 0 → verify_package (some (exited 0, lines)) ≡ 0
unfolding verify_package is_fatal
zero-verify lines h = ground (arith, process_rpm_output-answer lines)

-- The package is found to be signed exactly when rpmkeys exited with 0 and its output is framed and
-- good: a BAD, NOKEY, NOTFOUND or unknown line, a broken frame, a signal or another exit status
-- always gives another answer.
pub verify_package-zero_iff :
    (run : Option (ReturnCode × List Line)) → (verify_package run ≡ 0) ↔ IsAccepted run
verify_package-zero_iff run = (accepted run, zero run)
  where
    accepted : (run : Option (ReturnCode × List Line)) → verify_package run ≡ 0 → IsAccepted run
    accepted none h = absurd (unfound-ne_zero h)
    accepted (some (returncode, lines)) h =
        let (ended, answered) = verify-zero returncode lines h in
        let (body, framed, good) = answer_of_zero lines answered in
        record {
          lines = lines;
          body = body;
          ran = ap (λ c. some (c, lines)) ended;
          framed = framed;
          good = good;
        }

    zero : (run : Option (ReturnCode × List Line)) → IsAccepted run → verify_package run ≡ 0
    zero run a = rw a.ran (zero-verify a.lines (rw a.framed (zero_answer a.body a.good)))

-- The answers of `_verifyPackageUsingRpmkeys` are the five that its caller knows.
verify_package-le : (run : Option (ReturnCode × List Line)) → verify_package run ≤ 4
unfolding verify_package is_fatal
verify_package-le none = omega arith
verify_package-le (some (exited code, lines)) =
    ground (arith, process_rpm_output-answer lines, answer_of-le (middle lines))
  where
    answer_of-le : (o : Option (List Line)) → answer_of o ≤ 4
    answer_of-le none = omega arith
    answer_of-le (some body) = ground arith
verify_package-le (some (signalled signal, lines)) = omega arith

-- What a result of `_sig_check_pkg` means: 0, no check is asked for or the package is accepted; 1,
-- it is not accepted, and the repository has a key to try; 2, it is not accepted.
abbrev pub Means : SigCheck → Option (ReturnCode × List Line) → Option (ℕ × Message) → Type 0
Means c run none = ⊥
Means c run (some (result, shown)) =
    ((result ≡ 0) × (shown ≡ no_message) × ((checks c ≡ false) ⊎ IsAccepted run))
    ⊎ ((result ≡ 1)
        × (checks c ≡ true)
        × ¬ IsAccepted run
        × (c.from_cmdline ≡ false)
        × (c.repo_gpgkey ≡ true)
        × ((shown ≡ key_not_installed) ⊎ (shown ≡ key_not_trusted)))
    ⊎ ((result ≡ 2) × (checks c ≡ true) × ¬ IsAccepted run × (shown ≢ no_message))

with_key : (c : SigCheck) → hasgpgkey c ≡ true → (c.from_cmdline ≡ false) × (c.repo_gpgkey ≡ true)
with_key c h = ground arith

module _ (c : SigCheck) (run : Option (ReturnCode × List Line)) (asked : checks c ≡ true)
    (rejected : ¬ IsAccepted run) where
  -- The branches for a key that is missing or not trusted.
  key_problem :
      (shown : Message)
      → (shown ≡ key_not_installed) ⊎ (shown ≡ key_not_trusted)
      → Means c run (some (if hasgpgkey c then 1 else 2, shown))
  key_problem shown which = elim (Bool-cases (hasgpgkey c)) [
    | inl has ↦
        rw has (inr (inl (refl, asked, rejected, (with_key c has).0, (with_key c has).1, which)))
    | inr lacks ↦ rw lacks (inr (inr (refl, asked, rejected, λ e. ground arith)))
  ]

judge-Means :
    (c : SigCheck) (run : Option (ReturnCode × List Line)) (sigresult : ℕ)
    → sigresult ≤ 4
    → ((sigresult ≡ 0) ↔ IsAccepted run)
    → checks c ≡ true
    → Means c run (judge_signature (hasgpgkey c) sigresult)
unfolding judge_signature
judge-Means c run zero small zero_iff asked = inl (refl, refl, inr (zero_iff.0 refl))
judge-Means c run (suc zero) small zero_iff asked =
    key_problem c run asked (λ a. absurd (omega (arith, zero_iff.1 a))) key_not_installed (inl refl)
judge-Means c run (suc (suc zero)) small zero_iff asked =
    inr (inr (refl, asked, λ a. absurd (omega (arith, zero_iff.1 a)), λ e. cc))
judge-Means c run (suc (suc (suc zero))) small zero_iff asked =
    key_problem c run asked (λ a. absurd (omega (arith, zero_iff.1 a))) key_not_trusted (inr refl)
judge-Means c run (suc (suc (suc (suc zero)))) small zero_iff asked =
    inr (inr (refl, asked, λ a. absurd (omega (arith, zero_iff.1 a)), λ e. cc))
judge-Means c run (suc (suc (suc (suc (suc n))))) small zero_iff asked = absurd (omega arith)

-- `_sig_check_pkg` always assigns a result, and each result means what it says.
pub sig_check_pkg-Means :
    (c : SigCheck) (run : Option (ReturnCode × List Line)) → Means c run (sig_check_pkg c run)
unfolding sig_check_pkg
sig_check_pkg-Means c run = elim (Bool-cases (checks c)) [
  | inl asked ↦
      rw (asked, sig_check_pkg)
        (judge-Means c run (verify_package run) (verify_package-le run)
          (verify_package-zero_iff run) asked)
  | inr not_asked ↦ rw (not_asked, sig_check_pkg) (inl (refl, refl, inl not_asked))
]
