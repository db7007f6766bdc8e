-- ===== src/Console/Tests.antt =====
-- The theorem on the console at a line that is being edited.
use pplottery.Prelude.{refl, replicate, arith, true, false}
use pplottery.Console.{Cons, consoleintr, ctrl_h, read_loop}
use pplottery.Console.Read.{Reads, read_loop-Reads}
use pplottery.Console.Edit.{IsValid, Keeps, consoleintr-Keeps}

abbrev cons : Cons
cons = record { buf = replicate 128 10; r = 0xffff_ffff; w = 1; e = 4 }

cons-IsValid : IsValid cons
cons-IsValid = record {
  buffer = refl;
  words = (omega arith, omega arith, omega arith);
  ordered = omega arith;
  fits = omega arith;
}

consoleintr-Keeps_example : Keeps cons (consoleintr ctrl_h cons).1
consoleintr-Keeps_example = consoleintr-Keeps ctrl_h cons cons-IsValid

read_loop-Reads_example :
    let (out, end, s') = read_loop 5 5 (λ n. true) false cons in
    Reads 5 5 (λ n. true) false cons out end s'
read_loop-Reads_example = read_loop-Reads 5 5 (λ n. true) false cons cons-IsValid
