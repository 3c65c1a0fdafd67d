-- ===== src/Tests/Scoring.antt =====
-- extraction/pipeline.py and extraction/confidence_scorer.py at a purchase that a template reads.
use email_budget_api.Common.{◌≡◌, ◌⊎◌, none, some, refl}
use email_budget_api.Common.Text.{codes}
use email_budget_api.Extraction.Models.{ResolvedSender, PipelineResult}
use email_budget_api.Extraction.Scorer.{score, route}
use email_budget_api.Extraction.Scorer.Bounds.{IsEarned, high_band_needs_template}
use email_budget_api.Extraction.Pipeline.{run}
use email_budget_api.Extraction.Pipeline.Outcome.{IsRouted, run-IsRouted}
use email_budget_api.Tests.Samples.{purchase, stages}

high_band_needs_template_example : IsEarned purchase
unfolding score route
high_band_needs_template_example = high_band_needs_template purchase refl

run-IsRouted_example :
    ((stages.resolve (stages.parse (codes "raw")) ≡ none) × (run stages (codes "raw") ≡ none))
    ⊎ ((sender : ResolvedSender) × (result : PipelineResult) × (stages.resolve
            (stages.parse (codes "raw"))
          ≡ some sender)
        × (run stages (codes "raw") ≡ some result)
        × IsRouted result)
run-IsRouted_example = run-IsRouted stages (codes "raw")
