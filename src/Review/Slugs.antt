-- ===== src/Review/Slugs.antt =====
-- review/taxonomy.py: `CATEGORY_SLUGS`, in display order.
use mdp2p.Prelude.{List, [], ◌∷◌, String}

abbrev pub category_slugs : List String
category_slugs =
    "math" ∷ "physics" ∷ "chemistry" ∷ "biology" ∷ "astronomy" ∷ "geosciences" ∷ "computing"
    ∷ "networks" ∷ "cybersecurity" ∷ "ai_ml" ∷ "electronics_robotics" ∷ "medicine" ∷ "nutrition"
    ∷ "mental_health" ∷ "politics" ∷ "economics" ∷ "law" ∷ "history" ∷ "geography" ∷ "literature"
    ∷ "music" ∷ "cinema" ∷ "visual_arts" ∷ "philosophy_religion" ∷ "education"
    ∷ "languages_linguistics" ∷ "environment_ecology" ∷ "agriculture_food" ∷ "leisure_travel"
    ∷ "other" ∷ []
