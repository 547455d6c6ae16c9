-- ===== src/Review/Labels.antt =====
-- review/taxonomy.py: the labels of the categories. The Arabic ones are written by code points.
use mdp2p.Prelude.{[], ◌∷◌, String}
use mdp2p.Dict.{Dict}

abbrev pub labels_fr : Dict String
labels_fr =
    ("math", "Mathématiques")
    ∷ ("physics", "Physique")
    ∷ ("chemistry", "Chimie")
    ∷ ("biology", "Biologie")
    ∷ ("astronomy", "Astronomie")
    ∷ ("geosciences", "Géosciences")
    ∷ ("computing", "Informatique")
    ∷ ("networks", "Réseaux et Internet")
    ∷ ("cybersecurity", "Cybersécurité")
    ∷ ("ai_ml", "Intelligence artificielle")
    ∷ ("electronics_robotics", "Électronique et robotique")
    ∷ ("medicine", "Médecine")
    ∷ ("nutrition", "Nutrition")
    ∷ ("mental_health", "Santé mentale")
    ∷ ("politics", "Politique")
    ∷ ("economics", "Économie")
    ∷ ("law", "Droit")
    ∷ ("history", "Histoire")
    ∷ ("geography", "Géographie")
    ∷ ("literature", "Littérature")
    ∷ ("music", "Musique")
    ∷ ("cinema", "Cinéma et audiovisuel")
    ∷ ("visual_arts", "Arts visuels")
    ∷ ("philosophy_religion", "Philosophie et religion")
    ∷ ("education", "Éducation et pédagogie")
    ∷ ("languages_linguistics", "Langues et linguistique")
    ∷ ("environment_ecology", "Environnement et écologie")
    ∷ ("agriculture_food", "Agriculture et alimentation")
    ∷ ("leisure_travel", "Loisirs et voyages")
    ∷ ("other", "Autre")
    ∷ []

abbrev pub labels_en : Dict String
labels_en =
    ("math", "Mathematics")
    ∷ ("physics", "Physics")
    ∷ ("chemistry", "Chemistry")
    ∷ ("biology", "Biology")
    ∷ ("astronomy", "Astronomy")
    ∷ ("geosciences", "Earth sciences")
    ∷ ("computing", "Computing")
    ∷ ("networks", "Networks and Internet")
    ∷ ("cybersecurity", "Cybersecurity")
    ∷ ("ai_ml", "Artificial intelligence")
    ∷ ("electronics_robotics", "Electronics and robotics")
    ∷ ("medicine", "Medicine")
    ∷ ("nutrition", "Nutrition")
    ∷ ("mental_health", "Mental health")
    ∷ ("politics", "Politics")
    ∷ ("economics", "Economics")
    ∷ ("law", "Law")
    ∷ ("history", "History")
    ∷ ("geography", "Geography")
    ∷ ("literature", "Literature")
    ∷ ("music", "Music")
    ∷ ("cinema", "Cinema and audiovisual")
    ∷ ("visual_arts", "Visual arts")
    ∷ ("philosophy_religion", "Philosophy and religion")
    ∷ ("education", "Education and pedagogy")
    ∷ ("languages_linguistics", "Languages and linguistics")
    ∷ ("environment_ecology", "Environment and ecology")
    ∷ ("agriculture_food", "Agriculture and food")
    ∷ ("leisure_travel", "Leisure and travel")
    ∷ ("other", "Other")
    ∷ []

abbrev pub labels_zh : Dict String
labels_zh =
    ("math", "数学")
    ∷ ("physics", "物理")
    ∷ ("chemistry", "化学")
    ∷ ("biology", "生物学")
    ∷ ("astronomy", "天文学")
    ∷ ("geosciences", "地球科学")
    ∷ ("computing", "计算机")
    ∷ ("networks", "网络与互联网")
    ∷ ("cybersecurity", "网络安全")
    ∷ ("ai_ml", "人工智能")
    ∷ ("electronics_robotics", "电子与机器人")
    ∷ ("medicine", "医学")
    ∷ ("nutrition", "营养")
    ∷ ("mental_health", "心理健康")
    ∷ ("politics", "政治")
    ∷ ("economics", "经济")
    ∷ ("law", "法律")
    ∷ ("history", "历史")
    ∷ ("geography", "地理")
    ∷ ("literature", "文学")
    ∷ ("music", "音乐")
    ∷ ("cinema", "电影与影视")
    ∷ ("visual_arts", "视觉艺术")
    ∷ ("philosophy_religion", "哲学与宗教")
    ∷ ("education", "教育")
    ∷ ("languages_linguistics", "语言学")
    ∷ ("environment_ecology", "环境与生态")
    ∷ ("agriculture_food", "农业与食物")
    ∷ ("leisure_travel", "休闲与旅游")
    ∷ ("other", "其他")
    ∷ []

abbrev pub labels_ar : Dict String
labels_ar =
    ("math", "\u{627}\u{644}\u{631}\u{64a}\u{627}\u{636}\u{64a}\u{627}\u{62a}")
    ∷ ("physics", "\u{627}\u{644}\u{641}\u{64a}\u{632}\u{64a}\u{627}\u{621}")
    ∷ ("chemistry", "\u{627}\u{644}\u{643}\u{64a}\u{645}\u{64a}\u{627}\u{621}")
    ∷ ("biology", "\u{639}\u{644}\u{645} \u{627}\u{644}\u{623}\u{62d}\u{64a}\u{627}\u{621}")
    ∷ ("astronomy", "\u{639}\u{644}\u{645} \u{627}\u{644}\u{641}\u{644}\u{643}")
    ∷ ("geosciences", "\u{639}\u{644}\u{648}\u{645} \u{627}\u{644}\u{623}\u{631}\u{636}")
    ∷ ("computing", "\u{627}\u{644}\u{62d}\u{648}\u{633}\u{628}\u{629}")
    ∷ (
      "networks",
      "\u{627}\u{644}\u{634}\u{628}\u{643}\u{627}\u{62a} \u{648}\u{627}\u{644}\u{625}\u{646}\u{62a}\u{631}\u{646}\u{62a}",
    )
    ∷ (
      "cybersecurity",
      "\u{627}\u{644}\u{623}\u{645}\u{646} \u{627}\u{644}\u{633}\u{64a}\u{628}\u{631}\u{627}\u{646}\u{64a}",
    )
    ∷ (
      "ai_ml",
      "\u{627}\u{644}\u{630}\u{643}\u{627}\u{621} \u{627}\u{644}\u{627}\u{635}\u{637}\u{646}\u{627}\u{639}\u{64a}",
    )
    ∷ (
      "electronics_robotics",
      "\u{627}\u{644}\u{625}\u{644}\u{643}\u{62a}\u{631}\u{648}\u{646}\u{64a}\u{627}\u{62a} \u{648}\u{627}\u{644}\u{631}\u{648}\u{628}\u{648}\u{62a}\u{627}\u{62a}",
    )
    ∷ ("medicine", "\u{627}\u{644}\u{637}\u{628}")
    ∷ ("nutrition", "\u{627}\u{644}\u{62a}\u{63a}\u{630}\u{64a}\u{629}")
    ∷ (
      "mental_health",
      "\u{627}\u{644}\u{635}\u{62d}\u{629} \u{627}\u{644}\u{646}\u{641}\u{633}\u{64a}\u{629}",
    )
    ∷ ("politics", "\u{627}\u{644}\u{633}\u{64a}\u{627}\u{633}\u{629}")
    ∷ ("economics", "\u{627}\u{644}\u{627}\u{642}\u{62a}\u{635}\u{627}\u{62f}")
    ∷ ("law", "\u{627}\u{644}\u{642}\u{627}\u{646}\u{648}\u{646}")
    ∷ ("history", "\u{627}\u{644}\u{62a}\u{627}\u{631}\u{64a}\u{62e}")
    ∷ ("geography", "\u{627}\u{644}\u{62c}\u{63a}\u{631}\u{627}\u{641}\u{64a}\u{627}")
    ∷ ("literature", "\u{627}\u{644}\u{623}\u{62f}\u{628}")
    ∷ ("music", "\u{627}\u{644}\u{645}\u{648}\u{633}\u{64a}\u{642}\u{649}")
    ∷ (
      "cinema",
      "\u{627}\u{644}\u{633}\u{64a}\u{646}\u{645}\u{627} \u{648}\u{627}\u{644}\u{633}\u{645}\u{639}\u{64a}\u{627}\u{62a} \u{627}\u{644}\u{628}\u{635}\u{631}\u{64a}\u{629}",
    )
    ∷ (
      "visual_arts",
      "\u{627}\u{644}\u{641}\u{646}\u{648}\u{646} \u{627}\u{644}\u{628}\u{635}\u{631}\u{64a}\u{629}",
    )
    ∷ (
      "philosophy_religion",
      "\u{627}\u{644}\u{641}\u{644}\u{633}\u{641}\u{629} \u{648}\u{627}\u{644}\u{62f}\u{64a}\u{646}",
    )
    ∷ (
      "education",
      "\u{627}\u{644}\u{62a}\u{639}\u{644}\u{64a}\u{645} \u{648}\u{639}\u{644}\u{648}\u{645} \u{627}\u{644}\u{62a}\u{631}\u{628}\u{64a}\u{629}",
    )
    ∷ (
      "languages_linguistics",
      "\u{627}\u{644}\u{644}\u{63a}\u{627}\u{62a} \u{648}\u{627}\u{644}\u{644}\u{633}\u{627}\u{646}\u{64a}\u{627}\u{62a}",
    )
    ∷ (
      "environment_ecology",
      "\u{627}\u{644}\u{628}\u{64a}\u{626}\u{629} \u{648}\u{627}\u{644}\u{646}\u{638}\u{645} \u{627}\u{644}\u{625}\u{64a}\u{643}\u{648}\u{644}\u{648}\u{62c}\u{64a}\u{629}",
    )
    ∷ (
      "agriculture_food",
      "\u{627}\u{644}\u{632}\u{631}\u{627}\u{639}\u{629} \u{648}\u{627}\u{644}\u{63a}\u{630}\u{627}\u{621}",
    )
    ∷ (
      "leisure_travel",
      "\u{627}\u{644}\u{62a}\u{631}\u{641}\u{64a}\u{647} \u{648}\u{627}\u{644}\u{633}\u{641}\u{631}",
    )
    ∷ ("other", "\u{623}\u{62e}\u{631}\u{649}")
    ∷ []

abbrev pub labels_hi : Dict String
labels_hi =
    ("math", "गणित")
    ∷ ("physics", "भौतिकी")
    ∷ ("chemistry", "रसायन विज्ञान")
    ∷ ("biology", "जीव विज्ञान")
    ∷ ("astronomy", "खगोल विज्ञान")
    ∷ ("geosciences", "पृथ्वी विज्ञान")
    ∷ ("computing", "कंप्यूटिंग")
    ∷ ("networks", "नेटवर्क और इंटरनेट")
    ∷ ("cybersecurity", "साइबर सुरक्षा")
    ∷ ("ai_ml", "कृत्रिम बुद्धिमत्ता")
    ∷ ("electronics_robotics", "इलेक्ट्रॉनिक्स और रोबोटिक्स")
    ∷ ("medicine", "चिकित्सा")
    ∷ ("nutrition", "पोषण")
    ∷ ("mental_health", "मानसिक स्वास्थ्य")
    ∷ ("politics", "राजनीति")
    ∷ ("economics", "अर्थशास्त्र")
    ∷ ("law", "विधि")
    ∷ ("history", "इतिहास")
    ∷ ("geography", "भूगोल")
    ∷ ("literature", "साहित्य")
    ∷ ("music", "संगीत")
    ∷ ("cinema", "सिनेमा और दृश्य-श्रव्य")
    ∷ ("visual_arts", "दृश्य कला")
    ∷ ("philosophy_religion", "दर्शन और धर्म")
    ∷ ("education", "शिक्षा और शिक्षाशास्त्र")
    ∷ ("languages_linguistics", "भाषाएँ और भाषाविज्ञान")
    ∷ ("environment_ecology", "पर्यावरण और पारिस्थितिकी")
    ∷ ("agriculture_food", "कृषि और भोजन")
    ∷ ("leisure_travel", "अवकाश और यात्रा")
    ∷ ("other", "अन्य")
    ∷ []
