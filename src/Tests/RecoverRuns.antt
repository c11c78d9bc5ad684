-- ===== src/Tests/RecoverRuns.antt =====
-- Recovery after a publication, at a concrete engine.
use gentis.Prelude.{pos, ◌≡◌, refl, codes, [], ◌∷◌, some, arith}
use gentis.Engine.History.{History}
use gentis.Engine.History.Append as Append
use gentis.Engine.History.Segment.{segment}
use gentis.Engine.Publish.{publish, recover, recovered}
use gentis.Engine.Publish.Recovered.{recover-publish}
use gentis.Tests.CallRuns.{blank, both, held, held-found, both-IsValid, news, yes_all}

abbrev pub ring : History
ring = record {
  entries = blank ∷ blank ∷ blank ∷ blank ∷ [];
  head = 0;
  count = 0;
  ttl = pos 0;
  last_offset = 0;
}

pub ring-IsValid : Append.IsValid ring
unfolding segment
ring-IsValid = record {
  in_range = omega arith;
  fits = omega arith;
  word = omega arith;
  counted = omega arith;
  consecutive = tt;
}

recover-publish_example :
    recover (publish yes_all 7 [] both news (codes "hi") 6 (pos 2)).0 news 0 5
    ≡ some (recovered news 5 (record { offset = 1; payload = codes "hi"; stored_at = pos 2 }) ∷ [])
recover-publish_example =
    recover-publish yes_all 7 [] both news held ring (codes "hi") 6 (pos 2) both-IsValid held-found
      refl ring-IsValid refl (omega arith)
