-- ===== src/Packet/Tests.antt =====
-- A packet that is cut short, and the theorem on the texts in it.
use nsca_fast.Prelude.{ℕ, List, [], ◌∷◌, arith}
use nsca_fast.Packet.{check_of}
use nsca_fast.Packet.Layout.{Fits, check_of-Fits}

abbrev packet : List ℕ
packet = 0 ∷ 3 ∷ 0 ∷ 0 ∷ 81 ∷ 32 ∷ 170 ∷ 180 ∷ 0 ∷ 0 ∷ 0 ∷ 0 ∷ 0 ∷ 1 ∷ 104 ∷ 105 ∷ []

check_of-Fits_example : Fits (check_of packet)
check_of-Fits_example = check_of-Fits packet (
  omega arith,
  (
    omega arith,
    (
      omega arith,
      (
        omega arith,
        (
          omega arith,
          (
            omega arith,
            (
              omega arith,
              (
                omega arith,
                (
                  omega arith,
                  (
                    omega arith,
                    (
                      omega arith,
                      (omega arith, (omega arith, (omega arith, (omega arith, (omega arith, tt))))),
                    ),
                  ),
                ),
              ),
            ),
          ),
        ),
      ),
    ),
  ),
)
