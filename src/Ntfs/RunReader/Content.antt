-- ===== src/Ntfs/RunReader/Content.antt =====
-- What reading a list of runs returns: the content that the runs describe, cut to the file's size.
use mathlib.Core.List.{append-nil}
use forensis.Prelude.{
  >>=-eq-ok, Bool-cases, List, Result, [], ap, arith, err, if◌then◌else◌, inl, inr, invalid_format,
  leb, length, length-append, length-take, ok, plumbing, refl, sym, take, take-all, take-min,
  take_cut, take_full, ℕ, ◌++◌, ◌-◌, ◌>>=◌, ◌∙◌, ◌∷◌, ◌≡◌, ◌≤◌,
}
use forensis.Source.{Readable}
use forensis.Ntfs.DataRun.{DataRun}
use forensis.Ntfs.RunReader.{DataRunReader, read_run, runs_loop, read_runs}

-- All the runs, read in whole and one after the other.
unfoldable pub run_contents : DataRunReader → Readable → List DataRun → Result (List ℕ)
run_contents runs reader [] = ok []
run_contents runs reader (run ∷ rest) = read_run runs reader run >>= λ bytes.
    run_contents runs reader rest >>= λ others. ok (bytes ++ others)

module _ (runs : DataRunReader) (reader : Readable) where
  runs_loop-contents :
      (real_size : ℕ) (listed : List DataRun) (result whole : List ℕ)
      → length result ≤ real_size
      → run_contents runs reader listed ≡ ok whole
      → runs_loop runs reader real_size listed result ≡ ok (take real_size (result ++ whole))
  unfolding runs_loop run_contents plumbing
  runs_loop-contents real_size [] result whole h e =
      let w : [] ≡ whole = cc e in rw (← w, append-nil) (ap ok (sym (take-all real_size result h)))
  runs_loop-contents real_size (run ∷ rest) result whole h e =
      let (a, read, e') = >>=-eq-ok (read_run runs reader run) _ e in
      let (b, later, e2) = >>=-eq-ok (run_contents runs reader rest) _ e' in
      let w : a ++ b ≡ whole = cc e2 in
      let missing = real_size - length result in
      elim (Bool-cases (leb real_size (length result))) [
        | inl enough ↦ rw enough (ap ok (sym (take_full real_size result whole (ground arith))))
        | inr short ↦
            rw (short, read, take-min missing a)
              (runs_loop-contents real_size rest (result ++ take missing a) b
                  (omega (arith, length-append result (take missing a), length-take missing a))
                  later
                ∙ ap ok (take_cut real_size result a b h)
                ∙ rw w refl)
      ]

-- Where every run can be read, reading a file of some size out of the runs returns the first bytes
-- of what they hold, as many as the size says, or fails where they hold fewer.
pub read_runs-contents :
    (runs : DataRunReader) (reader : Readable) (listed : List DataRun) (real_size : ℕ)
    (whole : List ℕ)
    → run_contents runs reader listed ≡ ok whole
    → read_runs runs reader listed real_size ≡ (
        if leb real_size (length whole)
        then ok (take real_size whole)
        else err (invalid_format "Data runs do not contain enough data for file size"))
unfolding read_runs plumbing
read_runs-contents runs reader listed real_size whole e =
    rw (runs_loop-contents runs reader real_size listed [] whole (omega arith) e)
      (ground (arith, length-take real_size whole))
