-- ===== src/Launch/Redirect.antt =====
-- The standard descriptors of a process in the background.
use vzgot.Base.{ℕ, ◌<◌, ◌≡◌, ◌≢◌, refl, true, false, none, some, arith}
use vzgot.Launch.{out_log, err_log, Files, Stdio, put_stderr, put_stdout, open_stderr, setstdio}

-- When both files can be opened, on two descriptors above 2, and be duplicated, cnt_setstdio leaves
-- 0 closed, 1 and 2 on the two files, the first descriptor closed again, and the second one open;
-- all others are as before.
pub setstdio-logs :
    (out err : ℕ) (files : Files)
    → 2 < out
    → 2 < err
    → out ≢ err
    → (let s : Stdio = record {
      new_stdout = some out;
      new_stderr = some err;
      dups_stdout = true;
      dups_stderr = true;
    } in
        let after = setstdio s false files in
        (after 0 ≡ none)
        × (after 1 ≡ some out_log)
        × (after 2 ≡ some err_log)
        × (after out ≡ none)
        × (after err ≡ some err_log)
        × ((n : ℕ) → 2 < n → n ≢ out → n ≢ err → after n ≡ files n))
unfolding setstdio open_stderr put_stdout put_stderr
setstdio-logs out err files h k ne =
    (refl, ground arith, ground arith, ground arith, ground arith, λ n a b c. ground arith)
