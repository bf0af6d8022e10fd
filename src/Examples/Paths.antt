-- ===== src/Examples/Paths.antt =====
-- The theorems on src/io.c at concrete paths and lines.
use luka.Prelude.{Bool, ◌≡◌, ◌↔◌, refl, true, ◌++◌, Bytes, codes, [], ◌∷◌, some}
use luka.ReturnCode.{ok}
use luka.Paths.{ends_with, add_extension}
use luka.Paths.Ends.{ends_with_iff}
use luka.ErrorLine.{error_line}
use luka.ErrorLine.Exact.{Plain, error_line-write_lines}

ends_with_iff_example :
    ((b : Bool) × (ends_with (codes "a/main.luka") (codes ".luka") ≡ ok b))
    × ((ends_with (codes "a/main.luka") (codes ".luka") ≡ ok true)
        ↔ ((front : Bytes) × (codes "a/main.luka" ≡ front ++ codes ".luka")))
ends_with_iff_example = ends_with_iff (codes "a/main.luka") (codes ".luka")

first-Plain : Plain (codes "let a;")
first-Plain = (
  (refl, refl),
  ((refl, refl), ((refl, refl), ((refl, refl), ((refl, refl), ((refl, refl), tt))))),
)

second-Plain : Plain (codes "let b")
second-Plain = ((refl, refl), ((refl, refl), ((refl, refl), ((refl, refl), ((refl, refl), tt)))))

-- The second of three lines.
error_line-write_lines_example :
    (error_line 2 (some (codes "let a;\nlet b\nfn")) ≡ ok (codes "let b\n"))
    × (error_line 2 (some (codes "let a;\nlet b")) ≡ ok (codes "let b" ++ (255 ∷ [])))
error_line-write_lines_example =
    error_line-write_lines (codes "let a;" ∷ []) (codes "let b") (codes "fn") (first-Plain, tt)
      second-Plain

run_add_extension : add_extension (codes "stdio") ≡ ok (codes "stdio.luka")
unfolding add_extension
run_add_extension = refl
