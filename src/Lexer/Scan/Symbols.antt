-- ===== src/Lexer/Scan/Symbols.antt =====
-- The `switch` of the lexer reads each token that has one spelling.
use luka.Prelude.{refl, arith, codes, All}
use luka.Lexer.Ctype.{is_space}
use luka.Lexer.Scan.{single_char, lex_longer, lex_token, one_or_two, lex_slash, lex_dot}
use luka.Lexer.Scan.Spelling.{symbols, Scans}

pub symbols-Scans : All (λ (t, s). Scans t (codes s) (codes s)) symbols
unfolding is_space lex_token single_char lex_longer one_or_two lex_slash lex_dot
symbols-Scans = (
  (λ g w h. (refl, refl)),
  (
    (λ g w h. (refl, refl)),
    (
      (λ g w h. (refl, refl)),
      (
        (λ g w h. (refl, refl)),
        (
          (λ g w h. (refl, refl)),
          (
            (λ g w h. (refl, refl)),
            (
              (λ g w h. (refl, refl)),
              (
                (λ g w h. (refl, refl)),
                (
                  (λ g w h. (refl, refl)),
                  (
                    (λ g w h. (refl, refl)),
                    (
                      (λ g w h. (refl, refl)),
                      (
                        (λ g w h. ground arith),
                        (
                          (λ g w h. (refl, refl)),
                          (
                            (λ g w h. ground arith),
                            (
                              (λ g w h. ground arith),
                              (
                                (λ g w h. ground arith),
                                (
                                  (λ g w h. ground arith),
                                  (
                                    (λ g w h. (refl, refl)),
                                    (
                                      (λ g w h. (refl, refl)),
                                      (
                                        (λ g w h. (refl, refl)),
                                        (
                                          (λ g w h. (refl, refl)),
                                          (
                                            (λ g w h. (refl, refl)),
                                            (
                                              (λ g w h. (refl, refl)),
                                              (
                                                (λ g w h. (refl, refl)),
                                                (
                                                  (λ g w h. (refl, refl)),
                                                  (
                                                    (λ g w h. (refl, refl)),
                                                    (
                                                      (λ g w h. (refl, refl)),
                                                      (
                                                        (λ g w h. ground arith),
                                                        (
                                                          (λ g w h. (refl, refl)),
                                                          (
                                                            (λ g w h. ground arith),
                                                            ((λ g w h. (refl, refl)), tt),
                                                          ),
                                                        ),
                                                      ),
                                                    ),
                                                  ),
                                                ),
                                              ),
                                            ),
                                          ),
                                        ),
                                      ),
                                    ),
                                  ),
                                ),
                              ),
                            ),
                          ),
                        ),
                      ),
                    ),
                  ),
                ),
              ),
            ),
          ),
        ),
      ),
    ),
  ),
)
