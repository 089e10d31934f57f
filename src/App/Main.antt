-- ===== src/App/Main.antt =====
-- main of cmd/app/main.go.
use image_optimizer.Prelude.{ℕ, codes, List, [], ◌∷◌, if◌then◌else◌, Result, ok, err}
use image_optimizer.Text.{Bytes, same}
use image_optimizer.App.{System, run_serve}
use image_optimizer.App.Jobs.{run_worker}

module _ {B C H D P W : Type 0} (sys : System B C H D P W) where
  -- main: the exit status of the process
  abbrev pub exit_status : Result (Unit {0}) × W → ℕ × W
  exit_status (ok _, w) = (0, w)
  exit_status (err e, w) = (1, w)

  unfoldable pub main : List Bytes → W → ℕ × W
  main [] w = (2, w)
  main (program ∷ []) w = (2, w)
  main (program ∷ command ∷ args) w =
      if same command (codes "serve")
      then exit_status (run_serve sys w)
      else if same command (codes "worker")
      then exit_status (run_worker sys w)
      else (2, w)
