-- ===== src/Programs.antt =====
-- The programs colex-test and colex-main, which use the library by hand. Parsing flags is Go's: they come in a
-- record. An error is a message that the program ends with.
pub mod TestProgram
pub mod MainProgram
use colex.Base.{String, List}
use colex.Base.Outcome.{Result}
use colex.Ip.{Ip, IpNet}

-- net.ParseCIDR, filepath.Abs and strings.Split at commas
pub record Standard : Type 0 where
  pub parse_cidr : String → Result (Ip × IpNet)
  pub abs : String → Result String
  pub split_commas : String → List String
